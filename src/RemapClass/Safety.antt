-- ===== src/RemapClass/Safety.antt =====
-- The constructor of `RemapClass` (core/kext/RemapClass.cpp) reads nothing outside of its memory and
-- ends, whatever the words are, if every C string in the memory ends there.
use karabiner_cn.Base.{
  ℕ, zero, suc, ◌+◌, ◌≤◌, ◌<◌, ◌≡◌, List, [], ◌∷◌, ◌++◌, some, ltb, length, get_elem?, drop, arith,
  Bool-cases, Option-cases, inl, inr,
}
use karabiner_cn.StrlcpyUtf8.{strlcpy}
use karabiner_cn.StrlcpyUtf8.Safety.{strlcpy_total}
use karabiner_cn.Base.Returns.{Returns, some-Returns, Returns-bind}
use karabiner_cn.RemapClass.{
  State, go_on, return_early, read_words, bytes, c_string, read_string, read_block, read_blocks,
  read_next, at, returned, behind, max_allocation_count, register_name, set_statusmessage, Registry,
  construct, modifier_name_maxlen,
}
use karabiner_cn.Bridge

-- Every C string that begins at a word up to `last` ends in the memory.
abbrev pub Terminated : List ℕ → ℕ → Type 0
Terminated mem last = (p : ℕ) → p ≤ last → Returns (c_string (bytes (drop p mem)))

pub get_elem?_total : (mem : List ℕ) (p : ℕ) → p < length mem → Returns (get_elem? mem p)
get_elem?_total [] p h = absurd (omega arith)
get_elem?_total (w ∷ ws) zero h = some-Returns w
get_elem?_total (w ∷ ws) (suc p) h = get_elem?_total ws p (omega arith)

read_words_total : (mem : List ℕ) (p n : ℕ) → p + n ≤ length mem → Returns (read_words mem p n)
unfolding read_words
read_words_total mem p zero h = some-Returns []
read_words_total mem p (suc n) h =
    Returns-bind (get_elem? mem p) _ (get_elem?_total mem p (omega arith)) λ w e.
      Returns-bind (read_words mem (p + 1) n) _ (read_words_total mem (p + 1) n (omega arith))
        λ ws e'. some-Returns (w ∷ ws)

length-read_words :
    (mem : List ℕ) (p n : ℕ) {ws : List ℕ} → read_words mem p n ≡ some ws → length ws ≡ n
unfolding read_words
length-read_words mem p zero e = ground arith
length-read_words mem p (suc n) e = elim (Option-cases (get_elem? mem p)) [
  | inl x ↦ ground (arith, x)
  | inr (w, x) ↦ elim (Option-cases (read_words mem (p + 1) n)) [
    | inl y ↦ ground (arith, x, y)
    | inr (us, y) ↦ ground (arith, x, y, length-read_words mem (p + 1) n y)
  ]
]

read_string_total :
    (size : ℕ) (mem : List ℕ) (p : ℕ)
    → Returns (c_string (bytes (drop p mem)))
    → Returns (read_string size mem p)
unfolding read_string
read_string_total size mem p h =
    Returns-bind (c_string (bytes (drop p mem))) (strlcpy size) h λ s e. strlcpy_total size s

register_name_total :
    (mem words : List ℕ) (p last : ℕ) (s : State)
    → Terminated mem last
    → p + suc (length words) ≤ last
    → Returns (register_name mem words p s)
unfolding register_name
register_name_total mem [] p last s t h = some-Returns (return_early s)
register_name_total mem (m ∷ []) p last s t h = some-Returns (return_early s)
register_name_total mem (m ∷ w ∷ words) p last (c, r) t h =
    Returns-bind (read_string modifier_name_maxlen mem (p + 2)) _
      (read_string_total modifier_name_maxlen mem (p + 2) (t (p + 2) (omega arith)))
      λ d e. some-Returns _

set_statusmessage_total :
    (mem : List ℕ) (p last : ℕ) (s : State)
    → Terminated mem last
    → p + 1 ≤ last
    → Returns (set_statusmessage mem p s)
unfolding set_statusmessage
set_statusmessage_total mem p last (c, r) t h =
    Returns-bind (read_string Bridge.status_message_maxlen mem (p + 1)) _
      (read_string_total Bridge.status_message_maxlen mem (p + 1) (t (p + 1) h))
      λ d e. some-Returns _

-- A block of `words` at `p` that ends within `last`.
read_block_total :
    (mem : List ℕ) (last p : ℕ) (words : List ℕ) (s : State)
    → Terminated mem last
    → p + length words ≤ last
    → Returns (read_block mem p words s)
unfolding read_block
read_block_total mem last p [] s t h = some-Returns (go_on s)
read_block_total mem last p (type ∷ words) s t h = ground (
  arith,
  set_statusmessage_total mem p last s t (omega arith),
  register_name_total mem words p last s t h,
)

read_next_total :
    (mem : List ℕ) (p last : ℕ) (s : State)
    → Terminated mem last
    → last ≤ length mem
    → p < last
    → Returns (read_next mem p last s)
unfolding read_next
read_next_total mem p last s t h lt =
    Returns-bind (get_elem? mem p) _ (get_elem?_total mem p (omega arith)) λ size e.
      elim (Bool-cases (ltb last (p + 1 + size))) [
        | inl over ↦ rw over (some-Returns (returned s))
        | inr fits ↦ rw fits (
            Returns-bind (read_words mem (p + 1) size) _
              (read_words_total mem (p + 1) size (ground arith))
              λ words e'.
                Returns-bind (read_block mem (p + 1) words s) _
                  (read_block_total mem last (p + 1) words s t
                    (ground (arith, length-read_words mem (p + 1) size e')))
                  λ turn e''. some-Returns (behind (p + 1 + size) turn))
      ]

-- A turn that goes on has read a word at least.
read_next-advances :
    (mem : List ℕ) (p last : ℕ) (s : State) {p' : ℕ} {s' : State}
    → read_next mem p last s ≡ some (at p' s')
    → (p < p') × (p' ≤ last)
unfolding read_next
read_next-advances mem p last s e = ground arith

-- The constructor's loop ends, and reads only what is in the memory.
read_blocks_total :
    (n : ℕ) (mem : List ℕ) (p last : ℕ) (s : State)
    → Terminated mem last
    → last ≤ length mem
    → p ≤ last
    → last < n + p
    → Returns (read_blocks n mem p last s)
unfolding read_blocks
read_blocks_total zero mem p last s t h le lt = absurd (omega arith)
read_blocks_total (suc n) mem p last s t h le lt = elim (Option-cases (read_next mem p last s)) [
  | inl e ↦ ground (arith, read_next_total mem p last s t h)
  | inr (returned s', e) ↦ ground (arith, e)
  | inr (at p' s', e) ↦
      let step = read_next-advances mem p last s e in
      ground (arith, e, read_blocks_total n mem p' last s' t h step.1 (omega arith))
]

pub construct_total :
    (mem : List ℕ) (p vector_size configindex : ℕ) (r : Registry)
    → Terminated mem (p + vector_size)
    → p + vector_size ≤ length mem
    → Returns (construct mem p vector_size configindex r)
unfolding construct
construct_total mem p vector_size configindex r t h =
    elim (Bool-cases (ltb max_allocation_count (r.allocation_count + vector_size))) [
      | inl over ↦ rw over (some-Returns _)
      | inr fits ↦ rw fits (
          read_blocks_total (vector_size + 1) mem p (p + vector_size) _ t h (omega arith)
            (omega arith))
    ]

-- Behind the words there is a word of zeros, so that every string ends.
pub c_string_of_zero : (ws : List ℕ) → Returns (c_string (bytes (ws ++ (0 ∷ []))))
c_string_of_zero [] = ground arith
c_string_of_zero (w ∷ ws) = ground (arith, c_string_of_zero ws)

pub Terminated-of_zero : (ws : List ℕ) → Terminated (ws ++ (0 ∷ [])) (length ws)
Terminated-of_zero ws zero h = c_string_of_zero ws
Terminated-of_zero [] (suc p) h = absurd (omega arith)
Terminated-of_zero (w ∷ ws) (suc p) h = Terminated-of_zero ws p (omega arith)
