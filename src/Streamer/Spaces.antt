-- ===== src/Streamer/Spaces.antt =====
-- unicode.IsSpace and strings.TrimSpace on the bytes of a text: what internal/streamer/csv.go
-- uses of them, itself and through encoding/csv.
use mathlib.Core.List.{reverse, reverse-reverse}
use my_queue.Base.{
  ℕ, zero, suc, ◌<◌, ◌≡◌, refl, Bool, ◌&&◌, ◌||◌, [], ◌∷◌, ◌++◌, arith, leb, ◌==◌, Str,
  if◌then◌else◌,
}

-- The byte at an index, 0 beyond the end; 0 is in no white space.
abbrev byte_at : ℕ → Str → ℕ
byte_at i [] = 0
byte_at zero (c ∷ cs) = c
byte_at (suc i) (c ∷ cs) = byte_at i cs

-- The white space of one byte: tab to carriage return, and the space.
abbrev pub is_space : ℕ → Bool
is_space c = (leb 9 c && leb c 13) || c == 32

-- U+0085 and U+00A0.
abbrev is_space_2 : ℕ → ℕ → Bool
is_space_2 a b = a == 194 && (b == 133 || b == 160)

-- U+1680, U+2000 to U+200A, U+2028, U+2029, U+202F, U+205F and U+3000.
abbrev is_space_3 : ℕ → ℕ → ℕ → Bool
is_space_3 a b c =
    (a == 225 && (b == 154 && c == 128))
    || ((a == 226
          && (b == 128 && ((leb 128 c && leb c 138) || (c == 168 || (c == 169 || c == 175)))))
        || ((a == 226 && (b == 129 && c == 159)) || (a == 227 && (b == 128 && c == 128))))

-- The number of bytes of the white space that a text begins with, 0 if it begins with none.
unfoldable pub space_len : Str → ℕ
space_len s =
    if is_space (byte_at 0 s)
    then 1
    else if is_space_2 (byte_at 0 s) (byte_at 1 s)
    then 2
    else if is_space_3 (byte_at 0 s) (byte_at 1 s) (byte_at 2 s)
    then 3
    else 0

-- The same of a text given from its end.
unfoldable pub space_len_back : Str → ℕ
space_len_back s =
    if is_space (byte_at 0 s)
    then 1
    else if is_space_2 (byte_at 1 s) (byte_at 0 s)
    then 2
    else if is_space_3 (byte_at 2 s) (byte_at 1 s) (byte_at 0 s)
    then 3
    else 0

-- Drops white space from the front; the number is that of bytes still to drop.
unfoldable pub trim_from : (Str → ℕ) → ℕ → Str → Str
trim_from len k [] = []
trim_from len zero (c ∷ cs) = elim (len (c ∷ cs)) [ zero ↦ c ∷ cs | suc k ↦ trim_from len k cs ]
trim_from len (suc k) (c ∷ cs) = trim_from len k cs

unfoldable pub trim_space : Str → Str
trim_space s = reverse (trim_from space_len_back 0 (reverse (trim_from space_len 0 s)))

abbrev pub IsTrimmed : Str → Type 0
IsTrimmed s = (space_len s ≡ 0) × (space_len_back (reverse s) ≡ 0)

trim_from-zero : (len : Str → ℕ) (s : Str) → len s ≡ 0 → trim_from len 0 s ≡ s
unfolding trim_from
trim_from-zero len [] h = refl
trim_from-zero len (c ∷ cs) h = rw (h, trim_from) refl

pub trim_space-IsTrimmed : (s : Str) → IsTrimmed s → trim_space s ≡ s
unfolding trim_space
trim_space-IsTrimmed s (front, back) =
    rw (trim_from-zero space_len s front, trim_from-zero space_len_back (reverse s) back)
      (reverse-reverse s)

-- What follows a text changes nothing of the white space at its front, if it begins in ASCII.
pub space_len-append :
    (c d : ℕ) (s rest : Str) → d < 128 → space_len (c ∷ (s ++ d ∷ rest)) ≡ space_len (c ∷ s)
unfolding space_len
space_len-append c d [] rest h = ground arith
space_len-append c d (x ∷ []) rest h = ground arith
space_len-append c d (x ∷ y ∷ s) rest h = refl
