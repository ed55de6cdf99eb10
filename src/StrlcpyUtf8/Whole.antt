-- ===== src/StrlcpyUtf8/Whole.antt =====
-- What `strlcpy` of lib/strlcpy_utf8/strlcpy_utf8.hpp leaves of a text of whole characters.
use karabiner_cn.Base.{
  ℕ, zero, suc, ◌+◌, ◌-◌, ◌≤◌, ◌<◌, ◌≡◌, refl, sym, ap, ap₂, ◌∙◌, List, [], ◌∷◌, ◌++◌, none, some,
  leb, leb→le, if◌then◌else◌, length, take, get_elem?, All, arith, Bool-cases, length-append,
  append_assoc, inl, inr,
}
use karabiner_cn.StrlcpyUtf8.{char_length, scan, strlcpy}
use karabiner_cn.StrlcpyUtf8.Utf8.{IsWhole, IsHeaded, all_IsHeaded}

abbrev pub concat : List (List ℕ) → List ℕ
concat [] = []
concat (c ∷ cs) = c ++ concat cs

-- The leading characters that `room` bytes hold.
abbrev pub fitting : ℕ → List (List ℕ) → List ℕ
fitting room [] = []
fitting room (c ∷ cs) =
    let rest = c ++ fitting (room - length c) cs in if leb (length c) room then rest else []

take-append_le :
    (n : ℕ) (c xs : List ℕ) → length c ≤ n → take n (c ++ xs) ≡ c ++ take (n - length c) xs
take-append_le n [] xs h = ap (λ k. take k xs) (omega arith)
take-append_le zero (b ∷ c) xs h = absurd (omega arith)
take-append_le (suc n) (b ∷ c) xs h =
    ap (◌∷◌ b) (take-append_le n c xs (omega arith) ∙ ap (λ k. c ++ take k xs) (omega arith))

length-take_le : (n : ℕ) (xs : List ℕ) → length (take n xs) ≤ n
length-take_le zero xs = omega arith
length-take_le (suc n) [] = omega arith
length-take_le (suc n) (x ∷ xs) = omega (arith, length-take_le n xs)

get_elem?-append :
    (pre : List ℕ) (xs : List ℕ) → get_elem? (pre ++ xs) (length pre) ≡ get_elem? xs 0
get_elem?-append [] xs = refl
get_elem?-append (b ∷ pre) xs = get_elem?-append pre xs

take-length : (pre xs : List ℕ) → take (length pre) (pre ++ xs) ≡ pre
take-length [] xs = refl
take-length (b ∷ pre) xs = ap (◌∷◌ b) (take-length pre xs)

-- At the terminator the loop breaks.
scan_end :
    (n : ℕ) (dst : List ℕ) (i : ℕ)
    → get_elem? dst i ≡ none
    → i ≡ length dst
    → 0 < n
    → scan n dst i ≡ some i
unfolding scan char_length
scan_end zero dst i e l h = absurd (omega arith)
scan_end (suc n) dst i e l h = ground arith

-- At a character the loop breaks if the character is not whole, and goes behind it otherwise.
scan_break :
    (n : ℕ) (dst : List ℕ) (i b k : ℕ)
    → get_elem? dst i ≡ some b
    → char_length b ≡ some k
    → length dst < i + k
    → 0 < n
    → scan n dst i ≡ some i
unfolding scan
scan_break zero dst i b k e h l lt = absurd (omega arith)
scan_break (suc n) dst i b k e h l lt = ground arith

scan_next :
    (n : ℕ) (dst : List ℕ) (i b k : ℕ)
    → get_elem? dst i ≡ some b
    → char_length b ≡ some k
    → i + k ≤ length dst
    → scan (suc n) dst i ≡ scan n dst (i + k)
unfolding scan
scan_next n dst i b k e h l = ground arith

length-take_ge : (n : ℕ) (c xs : List ℕ) → length c ≤ n → length c ≤ length (take n (c ++ xs))
length-take_ge n c xs h =
    omega (arith, ap length (take-append_le n c xs h), length-append c (take (n - length c) xs))

fitting_fits :
    (room : ℕ) (c : List ℕ) (cs : List (List ℕ))
    → length c ≤ room
    → fitting room (c ∷ cs) ≡ c ++ fitting (room - length c) cs
fitting_fits room c cs h = ground arith

fitting_over :
    (room : ℕ) (c : List ℕ) (cs : List (List ℕ)) → room < length c → fitting room (c ∷ cs) ≡ []
fitting_over room c cs h = ground arith

fitting-zero : (cs : List (List ℕ)) → All IsHeaded cs → fitting 0 cs ≡ []
fitting-zero [] h = refl
fitting-zero ([] ∷ cs) h = absurd h.0
fitting-zero ((b ∷ c) ∷ cs) h = fitting_over 0 (b ∷ c) cs (omega arith)

-- Nothing of the text is left to go through.
scan_rest_empty :
    (n : ℕ) (pre : List ℕ) → 0 < n → scan n (pre ++ []) (length pre) ≡ some (length pre + 0)
scan_rest_empty n pre h =
    scan_end n (pre ++ []) (length pre) (get_elem?-append pre [])
      (omega (arith, length-append pre [])) h
    ∙ ap some (omega arith)

scan-concat :
    (n : ℕ) (pre : List ℕ) (room : ℕ) (cs : List (List ℕ))
    → All IsHeaded cs
    → length (take room (concat cs)) < n
    → scan n (pre ++ take room (concat cs)) (length pre)
      ≡ some (length pre + length (fitting room cs))
scan-concat n pre zero cs h lt =
    scan_rest_empty n pre lt ∙ ap (λ l. some (length pre + length l)) (sym (fitting-zero cs h))
scan-concat n pre (suc room) [] h lt = scan_rest_empty n pre lt
scan-concat n pre (suc room) ([] ∷ cs) h lt = absurd h.0
scan-concat zero pre (suc room) ((b ∷ c) ∷ cs) h lt = absurd (omega arith)
scan-concat (suc n) pre (suc room) ((b ∷ c) ∷ cs) h lt =
    elim (Bool-cases (leb (length (b ∷ c)) (suc room))) [
      | inl yes_fits ↦
          let fits : length (b ∷ c) ≤ suc room = leb→le _ _ yes_fits in
          scan_next n _ (length pre) b (length (b ∷ c)) (get_elem?-append pre _) h.0 (
            omega (
              arith,
              length-append pre (take (suc room) ((b ∷ c) ++ concat cs)),
              length-take_ge (suc room) (b ∷ c) (concat cs) fits,
            ))
          ∙ ap₂ (scan n)
              (ap (λ l. pre ++ l) (take-append_le (suc room) (b ∷ c) (concat cs) fits)
                ∙ sym (append_assoc pre (b ∷ c) _))
              (sym (length-append pre (b ∷ c)))
          ∙ scan-concat n (pre ++ (b ∷ c)) (suc room - length (b ∷ c)) cs h.1 (
              omega (
                arith,
                ap length (take-append_le (suc room) (b ∷ c) (concat cs) fits),
                length-append (b ∷ c) (take (suc room - length (b ∷ c)) (concat cs)),
              ))
          ∙ ap some (
              omega (
                arith,
                length-append pre (b ∷ c),
                ap length (fitting_fits (suc room) (b ∷ c) cs fits),
                length-append (b ∷ c) (fitting (suc room - length (b ∷ c)) cs),
              ))
      | inr no_fits ↦
          let over : suc room < length (b ∷ c) = ground arith in
          scan_break (suc n) _ (length pre) b (length (b ∷ c)) (get_elem?-append pre _) h.0
            (omega (
              arith,
              length-append pre (take (suc room) ((b ∷ c) ++ concat cs)),
              length-take_le (suc room) ((b ∷ c) ++ concat cs),
            ))
            (omega arith)
          ∙ ap some (omega (arith, ap length (fitting_over (suc room) (b ∷ c) cs over)))
    ]

-- The characters that fit are a prefix.
take-fitting :
    (room : ℕ) (cs : List (List ℕ))
    → take (length (fitting room cs)) (take room (concat cs)) ≡ fitting room cs
take-fitting room [] = refl
take-fitting room (c ∷ cs) = elim (Bool-cases (leb (length c) room)) [
  | inl yes_fits ↦
      let fits : length c ≤ room = leb→le _ _ yes_fits in
      ap₂ (λ n l. take n l) (ap length (fitting_fits room c cs fits))
        (take-append_le room c (concat cs) fits)
      ∙ take_append_more c (fitting (room - length c) cs) _ (take-fitting (room - length c) cs)
      ∙ sym (fitting_fits room c cs fits)
  | inr no_fits ↦
      let e : fitting room (c ∷ cs) ≡ [] = fitting_over room c cs (ground arith) in rw e refl
]
  where
    take_append_more :
        (c ys xs : List ℕ) → take (length ys) xs ≡ ys → take (length (c ++ ys)) (c ++ xs) ≡ c ++ ys
    take_append_more [] ys xs h = h
    take_append_more (b ∷ c) ys xs h = ap (◌∷◌ b) (take_append_more c ys xs h)

-- A text of whole characters of UTF-8 is copied up to the last character that the buffer holds together with
-- the terminator, and no part of the next one is left behind it.
pub strlcpy-concat :
    (size : ℕ) (cs : List (List ℕ))
    → All IsWhole cs
    → strlcpy size (concat cs) ≡ some (fitting (size - 1) cs)
unfolding strlcpy
strlcpy-concat size cs h =
    let e : scan (length (take (size - 1) (concat cs)) + 2) (take (size - 1) (concat cs)) 0
        ≡ some (length (fitting (size - 1) cs)) =
      scan-concat _ [] (size - 1) cs (all_IsHeaded cs h) (omega arith) ∙ ap some (omega arith) in
    ap
      (λ o. elim o [
        | none ↦ none
        | some previous ↦ some (take previous (take (size - 1) (concat cs)))
      ])
      e
    ∙ ap some (take-fitting (size - 1) cs)
