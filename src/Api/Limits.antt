-- ===== src/Api/Limits.antt =====
-- The limit on the body of an upload, in internal/api/handlers.go. `net/http` takes a negative limit
-- as 0.
use artifact_registry_servic.Base.{
  ℕ, ◌+◌, ◌-◌, ◌*◌, ◌%◌, ◌^◌, ◌<◌, ◌≡◌, refl, ◌∙◌, ltb, ℤ, pos, negsuc, arith, if◌then◌else◌,
}
use artifact_registry_servic.Config.{Config, Env, load}

-- The `int64` of these 64 bits.
abbrev pub int64 : ℕ → ℤ
int64 n =
    let bits = n % 2 ^ 64 in if ltb bits (2 ^ 63) then pos bits else negsuc (2 ^ 64 - 1 - bits)

-- `x << 20` of an `int64`.
unfoldable pub shifted : ℤ → ℤ
shifted (pos n) = int64 (n * 2 ^ 20)
shifted (negsuc n) = int64 (2 ^ 64 - (n + 1) * 2 ^ 20 % 2 ^ 64)

-- `maxBytes`.
unfoldable pub max_bytes : Config → ℤ
unfolding shifted
max_bytes cfg = shifted cfg.max_upload_mb

int64_small :
    (bits : ℕ)
    → bits < 2 ^ 64
    → int64 bits ≡ (if ltb bits (2 ^ 63) then pos bits else negsuc (2 ^ 64 - 1 - bits))
int64_small bits small = let whole : bits % 2 ^ 64 ≡ bits = omega arith in rw whole refl

-- A limit below 2⁴³ megabytes is so many times 2²⁰ bytes. From there to below 2⁴⁴ the shift
-- overflows, and the limit is negative.
pub max_bytes_wraps :
    (env : Env) (n : ℕ)
    → (load env).max_upload_mb ≡ pos n
    → n < 2 ^ 44
    → max_bytes (load env)
      ≡ (if ltb n (2 ^ 43) then pos (n * 2 ^ 20) else negsuc (2 ^ 64 - 1 - n * 2 ^ 20))
unfolding max_bytes
max_bytes_wraps env n set small =
    let below : n * 2 ^ 20 < 2 ^ 64 = omega arith in
    let same : ltb (n * 2 ^ 20) (2 ^ 63) ≡ ltb n (2 ^ 43) = ground arith in
    rw set (int64_small (n * 2 ^ 20) below ∙ rw same refl)
