-- ===== src/Time/Order.antt =====
-- The order of stored times, as SQLite compares them.
use artifact_registry_servic.Base.{◌≡◌, refl, true, text_ltb}
use artifact_registry_servic.Time.{rfc3339_nano}

sample_text : rfc3339_nano 1700000000120000000 ≡ "2023-11-14T22:13:20.12Z"
unfolding rfc3339_nano
sample_text = refl

leap_text : rfc3339_nano 1709210096000000000 ≡ "2024-02-29T12:34:56Z"
unfolding rfc3339_nano
leap_text = refl

swapped : text_ltb (rfc3339_nano 1700000000150000000) (rfc3339_nano 1700000000100000000) ≡ true
unfolding rfc3339_nano text_ltb
swapped = refl
