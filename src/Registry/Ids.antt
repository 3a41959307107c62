-- ===== src/Registry/Ids.antt =====
-- `newID` of internal/service/registry.go: an identifier from the time in nanoseconds.
pub mod Laws
use artifact_registry_servic.Base.{
  ℕ, zero, suc, ◌+◌, ◌*◌, ◌/◌, ◌%◌, ◌^◌, String, List, [], ◌∷◌, hex_text,
}

-- The loop from index `i` over the `n` bytes that are left: `b[i] = byte(t >> (i * 4))`.
unfoldable pub id_bytes : ℕ → ℕ → ℕ → List ℕ
id_bytes zero i t = []
id_bytes (suc n) i t = t / 2 ^ (i * 4) % 256 ∷ id_bytes n (i + 1) t

unfoldable pub new_id : ℕ → String
unfolding id_bytes hex_text
new_id t = hex_text (id_bytes 16 0 t)
