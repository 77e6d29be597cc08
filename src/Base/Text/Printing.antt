-- ===== src/Base/Text/Printing.antt =====
-- Several calls of `snprintf` into one buffer leave what one call leaves.
use Prim.Native.Nat.{ℕ, zero, suc, ◌-◌, ◌<◌}
use mathlib.Core.Path.{◌≡◌, refl, ap, ◌∙◌}
use mathlib.Core.List.{[], ◌∷◌, ◌++◌}
use native.Mathlib.Omega.{arith}
use rtsp_server.Base.Lists.{Bytes, length, take, length-take}
use rtsp_server.Base.Text.{printed, append_printed}

take-append_taken :
    (n : ℕ) (a b : Bytes) → take n a ++ take (n - length (take n a)) b ≡ take n (a ++ b)
take-append_taken zero a b = refl
take-append_taken (suc n) [] b = ap (λ k. take k b) (let e : suc n - 0 ≡ suc n = omega arith in e)
take-append_taken (suc n) (x ∷ a) b =
    ap (λ l. x ∷ l)
      (ap (λ k. take n a ++ take k b)
          (let e : suc n - suc (length (take n a)) ≡ n - length (take n a) = omega arith in e)
        ∙ take-append_taken n a b)

pub append_printed-printed :
    (size : ℕ) (a b : Bytes) → append_printed size (printed size a) b ≡ printed size (a ++ b)
unfolding printed append_printed
append_printed-printed size a b =
    ap (λ k. take (size - 1) a ++ take k b)
      (let e : size - length (take (size - 1) a) - 1 ≡ size - 1 - length (take (size - 1) a) =
          omega arith in
        e)
    ∙ take-append_taken (size - 1) a b

pub length-printed : (size : ℕ) (s : Bytes) → 0 < size → length (printed size s) < size
unfolding printed
length-printed size s room = omega (arith, length-take (size - 1) s, room)
