-- ===== src/Database/Space.antt =====
-- The test for space in the purge, on a file whose size is not known.
use pcfs.Base.{ℕ, ◌+◌, ◌-◌, ◌*◌, ◌/◌, ◌%◌, ◌^◌, ◌<◌, ◌≡◌, ap, false, none, some, arith, ◌∙◌}
use pcfs.Types.{File, Statvfs}
use pcfs.Database.{Env, fits, wants_compression}

twice : (h b : ℕ) → 2 * h * b ≡ h * b + h * b
twice h b = grind arith

even_product : (a b : ℕ) → a % 2 ≡ 0 → a * b % 2 ^ 64 < 2 ^ 64 - 1
even_product a b even =
    let half : a ≡ 2 * (a / 2) = omega (arith, even) in
    let double : a * b ≡ a / 2 * b + a / 2 * b = ap (λ (x : ℕ). x * b) half ∙ twice (a / 2) b in
    omega (arith, double)

-- A file whose size is not known never goes to the background thread in a purge, on any filesystem
-- whose blocks have an even size: the size -1 is compared as the largest unsigned number.
pub unknown_size-stays :
    (env : Env) (f : File) (st : Statvfs)
    → f.size ≡ none
    → env.statvfs f.name ≡ some st
    → st.f_bsize % 2 ≡ 0
    → wants_compression env f ≡ false
unfolding wants_compression fits
unknown_size-stays env f st unknown answer even =
    let avail = even_product st.f_bsize st.f_bavail even in
    let free = even_product st.f_bsize st.f_bfree even in
    let no_room : fits env.euid_root st f.size ≡ false = ground (arith, unknown, avail, free) in
    ground (arith, answer, no_room)
