-- ===== src/Static/Chunks.antt =====
-- A file is sent in pieces that together are the file.
use redis_rest.Base.{
  ℕ, zero, suc, ◌<◌, ◌≤◌, false, List, [], ◌∷◌, ◌++◌, append-nil, some, ◌≡◌, refl, ap, Text, All,
  length, take, drop, arith, length-drop, take-append-drop, Bool-cases, inl, inr, ltb,
}
use redis_rest.Static.{chunks_from, chunks, buffer_size, send_file}

-- What the socket has been sent.
abbrev pub joined : List Text → Text
joined [] = []
joined (p ∷ ps) = p ++ joined ps

-- A piece is a full buffer at most, and never empty.
abbrev pub Fits : ℕ → Text → Type 0
Fits size p = (1 ≤ length p) × (length p ≤ size)

length-take-le : (n : ℕ) (t : Text) → length (take n t) ≤ n
length-take-le zero t = omega arith
length-take-le (suc n) [] = omega arith
length-take-le (suc n) (x ∷ t) = omega (arith, length-take-le n t)

length-drop-lt : (n x : ℕ) (t : Text) → length (drop (suc n) (x ∷ t)) < length (x ∷ t)
length-drop-lt n x t = omega (arith, length-drop n t)

chunks_from-joined :
    (fuel n : ℕ) (left : Text)
    → length left < fuel
    → (ps : List Text) × (chunks_from fuel (suc n) left ≡ some ps)
      × (joined ps ≡ left)
      × All (Fits (suc n)) ps
unfolding chunks_from
chunks_from-joined zero n left h = elim h [ ]
chunks_from-joined (suc fuel) n [] h = ([], refl, refl, tt)
chunks_from-joined (suc fuel) n (x ∷ left) h =
    let (ps, e, whole, fits) =
      chunks_from-joined fuel n (drop n left) (omega (arith, length-drop n left)) in
    (
      (x ∷ take n left) ∷ ps,
      rw e,
      ap (◌∷◌ x) (rw whole (take-append-drop n left)),
      ((omega arith, omega (arith, length-take-le n left)), fits),
    )

-- For every buffer of at least one byte the loop ends, the pieces together are the file, and each has
-- from one byte up to the buffer's size.
pub chunks-joined :
    (size : ℕ) (file : Text)
    → 0 < size
    → (ps : List Text) × (chunks size file ≡ some ps) × (joined ps ≡ file) × All (Fits size) ps
unfolding chunks
chunks-joined zero file h = elim h [ ]
chunks-joined (suc n) file h = chunks_from-joined (suc (length file)) n file (omega arith)

Fits-below : (size : ℕ) (ps : List Text) → All (Fits size) ps → All (λ p. length p ≤ size) ps
Fits-below size [] h = tt
Fits-below size (p ∷ ps) h = (h.0.1, Fits-below size ps h.1)

below_buffer : (n : ℕ) → ltb buffer_size n ≡ false → n ≤ buffer_size
below_buffer n h = ground arith

-- Whatever its length, a file is sent whole, in pieces of at most the buffer's size.
pub send_file-joined :
    (file : Text)
    → (ps : List Text) × (send_file file ≡ some ps)
      × (joined ps ≡ file)
      × All (λ p. length p ≤ buffer_size) ps
unfolding send_file
send_file-joined file = elim (Bool-cases (ltb buffer_size (length file))) [
  | inl long ↦
      let (ps, e, whole, fits) = chunks-joined buffer_size file (omega arith) in
      (ps, rw long e, whole, Fits-below buffer_size ps fits)
  | inr short ↦ (file ∷ [], rw short, append-nil file, (below_buffer (length file) short, tt))
]
