-- ===== src/Registry/Ids/Laws.antt =====
-- Identifiers of different times.
use native.Mathlib.Nat.{div-div-eq-div-mul}
use native.Mathlib.Numerals.{towards_suc}
use artifact_registry_servic.Base.{
  ℕ, zero, suc, ◌+◌, ◌*◌, ◌/◌, ◌%◌, ◌^◌, ◌<◌, ◌≡◌, ◌≢◌, refl, sym, ap, ◌∙◌, ◌∷◌, arith, hex_text,
}
use artifact_registry_servic.Base.Text.Hex.{hex_text_injective}
use artifact_registry_servic.Registry.Ids.{id_bytes, new_id}

power : (i : ℕ) → 2 ^ (suc i * 4) ≡ 16 * 2 ^ (i * 4)
power i = let four : suc i * 4 ≡ i * 4 + 4 = omega arith in rw four (simp towards_suc (omega arith))

-- A shift by four bits more.
shift : (i t : ℕ) → t / 2 ^ (suc i * 4) ≡ t / 16 / 2 ^ (i * 4)
shift i t = ap (λ k. t / k) (power i) ∙ sym (div-div-eq-div-mul t 16 (2 ^ (i * 4)))

id_bytes-suc : (n i t : ℕ) → id_bytes n (suc i) t ≡ id_bytes n i (t / 16)
unfolding id_bytes
id_bytes-suc zero i t = refl
id_bytes-suc (suc n) i t =
    let next : suc i + 1 ≡ suc (i + 1) = omega arith in
    rw next (λ k. shift i t k % 256 ∷ id_bytes-suc n (i + 1) t k)

quotient : (n t : ℕ) → t < 16 ^ suc n → t / 16 < 16 ^ n
quotient n t h = omega (arith, h)

-- So many bytes tell apart the times below that power of 16.
bytes_apart :
    (n t t' : ℕ)
    → t < 16 ^ n
    → t' < 16 ^ n
    → hex_text (id_bytes n 0 t) ≡ hex_text (id_bytes n 0 t')
    → t ≡ t'
unfolding id_bytes
bytes_apart zero t t' h h' e = omega (arith, h, h')
bytes_apart (suc n) t t' h h' e =
    let (low, rest) =
      hex_text_injective (t / 1 % 256) (t' / 1 % 256) (id_bytes n 1 t) (id_bytes n 1 t')
        (omega arith) (omega arith) e in
    let high : t / 16 ≡ t' / 16 =
      bytes_apart n (t / 16) (t' / 16) (quotient n t h) (quotient n t' h')
        (ap hex_text (sym (id_bytes-suc n 0 t)) ∙ rest ∙ ap hex_text (id_bytes-suc n 0 t')) in
    omega (arith, low, high)

-- Two different times of fewer than 2^64 nanoseconds give different identifiers.
pub new_id_apart : (t t' : ℕ) → t < 2 ^ 64 → t' < 2 ^ 64 → t ≢ t' → new_id t ≢ new_id t'
unfolding new_id
new_id_apart t t' h h' other same = other (bytes_apart 16 t t' h h' same)
