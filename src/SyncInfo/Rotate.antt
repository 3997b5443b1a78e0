-- ===== src/SyncInfo/Rotate.antt =====
-- sync_info.rs: the rotation that hides the bytes of a QR code behind its token.
use crosspaste_server.Prelude.{
  Bool-cases, List, [], ap, arith, eqb, false, get_elem?, get_elem?-above, get_elem?-below,
  get_elem?-map, get_elem?-range_from, if◌then◌else◌, inl, inr, is_empty, length, length-map,
  length-range_from, list_ext, ltb, ltb→lt, map, range_from, refl, some, suc, sym, unwrap_or, zero,
  ℕ, ◌%◌, ◌+◌, ◌-◌, ◌<◌, ◌||◌, ◌∙◌, ◌∷◌, ◌≡◌, ◌≤◌,
}
use crosspaste_server.Prelude.Bytes.{AreBytes}
use native.Mathlib.Nat.{mod-eq-sub-mod, mod-eq_of_lt}

-- The index is below the length, so the default is never read.
unfoldable pub rotate_right : List ℕ → ℕ → List ℕ
rotate_right bytes offset =
    if is_empty bytes || eqb offset 0
    then bytes
    else let len = length bytes in
      map (λ i. unwrap_or 0 (get_elem? bytes ((i + len - offset) % len))) (range_from 0 len)

pub length-rotate_right :
    (bytes : List ℕ) (offset : ℕ) → length (rotate_right bytes offset) ≡ length bytes
unfolding rotate_right
length-rotate_right bytes offset = elim (Bool-cases (is_empty bytes || eqb offset 0)) [
  | inl e ↦ rw e
  | inr e ↦ rw e (
      length-map (λ i. unwrap_or 0 (get_elem? bytes ((i + length bytes - offset) % length bytes)))
        (range_from 0 (length bytes))
      ∙ length-range_from 0 (length bytes))
]

abbrev source : ℕ → ℕ → ℕ → ℕ
source len offset i = (i + len - offset) % len

not_trivial :
    (bytes : List ℕ) (offset : ℕ)
    → 0 < offset
    → 0 < length bytes
    → (is_empty bytes || eqb offset 0) ≡ false
not_trivial [] offset h lt = elim lt [ ]
not_trivial (b ∷ bytes) offset h lt = ground arith

read :
    (bytes : List ℕ) (i : ℕ)
    → i < length bytes
    → some (unwrap_or 0 (get_elem? bytes i)) ≡ get_elem? bytes i
read bytes i lt = let (x, e) = get_elem?-below bytes i lt in rw e

-- The byte at each place.
pub get_elem?-rotate_right :
    (bytes : List ℕ) (offset i : ℕ)
    → 0 < offset
    → i < length bytes
    → get_elem? (rotate_right bytes offset) i ≡ get_elem? bytes (source (length bytes) offset i)
unfolding rotate_right
get_elem?-rotate_right bytes offset i h lt = rw (not_trivial bytes offset h (omega arith)) (
    get_elem?-map (λ j. unwrap_or 0 (get_elem? bytes (source (length bytes) offset j)))
      (range_from 0 (length bytes)) i i
      (get_elem?-range_from 0 (length bytes) i lt ∙ ap some (omega arith))
    ∙ read bytes (source (length bytes) offset i) (omega arith))

mod_once : (a m : ℕ) → m ≤ a → a < m + m → a % m ≡ a - m
mod_once a m le lt = mod-eq-sub-mod le ∙ mod-eq_of_lt (omega arith)

-- Turning by an offset and then by what is missing to the whole length leads back.
source_back :
    (len offset i : ℕ)
    → 0 < offset
    → offset < len
    → i < len
    → source len offset (source len (len - offset) i) ≡ i
source_back len offset i h lt il = elim (Bool-cases (ltb (i + offset) len)) [
  | inl below ↦
      rw (there ∙ mod-eq_of_lt (ltb→lt _ _ below))
        (mod_once (i + offset + len - offset) len (omega arith) (omega arith) ∙ omega arith)
  | inr above ↦
      rw (there ∙ mod_once (i + offset) len (ground arith) (omega arith))
        (ap (λ (a : ℕ). a % len) (back (ground arith)) ∙ mod-eq_of_lt il)
]
  where
    there : (i + len - (len - offset)) % len ≡ (i + offset) % len
    there = ap (λ (a : ℕ). a % len) (omega arith)

    back : len ≤ i + offset → i + offset - len + len - offset ≡ i
    back le = omega arith

rotate_right-zero : (bytes : List ℕ) → rotate_right bytes 0 ≡ bytes
unfolding rotate_right
rotate_right-zero [] = refl
rotate_right-zero (b ∷ bytes) = refl

turned :
    (bytes : List ℕ) (offset : ℕ)
    → 0 < offset
    → offset < length bytes
    → rotate_right (rotate_right bytes offset) (length bytes - offset) ≡ bytes
turned bytes offset h lt = list_ext _ bytes at
  where
    once : List ℕ
    once = rotate_right bytes offset

    same : length once ≡ length bytes
    same = length-rotate_right bytes offset

    inside :
        (i : ℕ)
        → i < length bytes
        → get_elem? (rotate_right once (length bytes - offset)) i ≡ get_elem? bytes i
    inside i il =
        get_elem?-rotate_right once (length bytes - offset) i (omega arith) (omega (arith, same))
        ∙ rw same (
            get_elem?-rotate_right bytes offset (source (length bytes) (length bytes - offset) i) h
              (omega arith)
            ∙ ap (get_elem? bytes) (source_back (length bytes) offset i h lt il))

    at : (i : ℕ) → get_elem? (rotate_right once (length bytes - offset)) i ≡ get_elem? bytes i
    at i = elim (Bool-cases (ltb i (length bytes))) [
      | inl below ↦ inside i (ltb→lt _ _ below)
      | inr above ↦
          get_elem?-above (rotate_right once (length bytes - offset)) i
            (omega (arith, same, length-rotate_right once (length bytes - offset), not_below above))
          ∙ sym (get_elem?-above bytes i (not_below above))
    ]
      where
        not_below : ltb i (length bytes) ≡ false → length bytes ≤ i
        not_below e = ground arith

pub rotate_right-back :
    (bytes : List ℕ) (offset : ℕ)
    → offset < length bytes
    → rotate_right (rotate_right bytes offset) ((length bytes - offset) % length bytes) ≡ bytes
rotate_right-back bytes zero lt = rw (rotate_right-zero bytes) (rw whole (rotate_right-zero bytes))
  where
    whole : (length bytes - 0) % length bytes ≡ 0
    whole = mod_once (length bytes - 0) (length bytes) (omega arith) (omega arith) ∙ omega arith
rotate_right-back bytes (suc k) lt =
    rw (mod-eq_of_lt (lower (length bytes) k lt)) (turned bytes (suc k) (omega arith) lt)
  where
    lower : (len k : ℕ) → suc k < len → len - suc k < len
    lower len k lt = omega arith

nth-byte : (bytes : List ℕ) (i : ℕ) → AreBytes bytes → unwrap_or 0 (get_elem? bytes i) < 256
nth-byte [] i h = omega arith
nth-byte (b ∷ bytes) zero h = h.0
nth-byte (b ∷ bytes) (suc i) h = nth-byte bytes i h.1

map-AreBytes : (f : ℕ → ℕ) (xs : List ℕ) → ((i : ℕ) → f i < 256) → AreBytes (map f xs)
map-AreBytes f [] h = tt
map-AreBytes f (x ∷ xs) h = (h x, map-AreBytes f xs h)

pub rotate_right-AreBytes :
    (bytes : List ℕ) (offset : ℕ) → AreBytes bytes → AreBytes (rotate_right bytes offset)
unfolding rotate_right
rotate_right-AreBytes bytes offset h = elim (Bool-cases (is_empty bytes || eqb offset 0)) [
  | inl e ↦ rw e h
  | inr e ↦ rw e (map-AreBytes _ (range_from 0 (length bytes)) (λ i. nth-byte bytes _ h))
]
