-- ===== src/Crypto/Memory.antt =====
-- crypto/secure_mem.rs: `secure_zero`. The crate `zeroize` sets each byte to zero; that the compiler
-- cannot leave the writes out is not modelled.
use secure_file_shredder_and.Base.{◌≡◌, refl, ap, [], ◌∷◌, Bytes, length, replicate}

unfoldable pub secure_zero : Bytes → Bytes
secure_zero [] = []
secure_zero (_ ∷ buf) = 0 ∷ secure_zero buf

pub secure_zero-replicate : (buf : Bytes) → secure_zero buf ≡ replicate (length buf) 0
unfolding secure_zero
secure_zero-replicate [] = refl
secure_zero-replicate (_ ∷ buf) = ap (λ r. 0 ∷ r) (secure_zero-replicate buf)
