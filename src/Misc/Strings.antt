-- ===== src/Misc/Strings.antt =====
-- dstrcpy, dstrcat and dmindex of flat/os/misc.c on strings that end inside their buffers.
use os_lab.Prelude.{
  ℕ, zero, suc, ◌≡◌, ◌≢◌, ◌<◌, refl, false, some, none, List, [], ◌∷◌, ◌++◌, length, drop, arith,
  ne→==,
}
use os_lab.Misc.{dstrcpy, dstrcat, dmindex, matches_one}
use os_lab.Misc.Names.{IsText}

pub dstrcpy-text :
    (a r to : List ℕ)
    → IsText a
    → length a < length to
    → dstrcpy to (a ++ (0 ∷ r)) ≡ some (a ++ (0 ∷ drop (suc (length a)) to))
unfolding dstrcpy
dstrcpy-text a r [] t h = absurd (omega arith)
dstrcpy-text [] r (x ∷ to) t h = refl
dstrcpy-text (c ∷ a) r (x ∷ to) t h = rw (ne→== c 0 t.0, dstrcpy-text a r to t.1 (omega arith))

-- dstrcat of two texts appends the second to the first, with its NUL, when the buffer has room for
-- it behind the first; what lies behind the result in the buffer stays.
pub dstrcat-text :
    (a b rest from : List ℕ)
    → IsText a
    → IsText b
    → length b < length (0 ∷ rest)
    → dstrcat (a ++ (0 ∷ rest)) (b ++ (0 ∷ from)) ≡ some ((a ++ b) ++ (0 ∷ drop (length b) rest))
unfolding dstrcat
dstrcat-text [] b rest from t u h = dstrcpy-text b from (0 ∷ rest) u h
dstrcat-text (c ∷ a) b rest from t u h = rw (ne→== c 0 t.0, dstrcat-text a b rest from t.1 u h)

-- dmindex never returns when the first character of its string is none of those asked for, whatever
-- comes behind it.
pub dmindex-stuck :
    (n x : ℕ) (s match : List ℕ)
    → x ≢ 0
    → matches_one x match ≡ some false
    → dmindex n (x ∷ s) match ≡ some none
unfolding dmindex
dmindex-stuck zero x s match h other = refl
dmindex-stuck (suc n) x s match h other =
    rw (ne→== x 0 h, other, dmindex) (dmindex-stuck n x s match h other)
