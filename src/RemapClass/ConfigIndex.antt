-- ===== src/RemapClass/ConfigIndex.antt =====
-- Reading the blocks of a class (core/kext/RemapClass.cpp) leaves its config index alone.
use karabiner_cn.Base.{
  ℕ, zero, suc, ◌+◌, ◌≡◌, ◌&&◌, ◌||◌, ◌==◌, Bool, true, false, List, [], ◌∷◌, Option, none, some,
  ltb, arith, Option-cases, inl, inr, if◌then◌else◌, get_elem?,
}
use karabiner_cn.Bridge
use karabiner_cn.RemapClass.{
  State, Registry, Turn, go_on, return_early, Cursor, at, returned, read_block, read_next,
  read_blocks, construct, register_vk_modifier, register_vk_config, register_vk_userspace,
  register_name, set_statusmessage, add_item, add_filter, push_item, read_words,
}

abbrev state_of : Turn → State
state_of (go_on s) = s
state_of (return_early s) = s

abbrev state_at : Cursor → State
state_at (at p s) = s
state_at (returned s) = s

-- The index of the class in a state.
abbrev index_of : State → ℕ
index_of (c, r) = c.configindex

module _ (s : State) where
  keeps_vk_modifier :
      (words : List ℕ) → index_of (state_of (register_vk_modifier words s)) ≡ index_of s
  unfolding register_vk_modifier
  keeps_vk_modifier words = ground arith

  keeps_vk_config : (words : List ℕ) → index_of (state_of (register_vk_config words s)) ≡ index_of s
  unfolding register_vk_config
  keeps_vk_config words = ground arith

  keeps_vk_userspace :
      (type : ℕ) (words : List ℕ)
      → index_of (state_of (register_vk_userspace type words s)) ≡ index_of s
  unfolding register_vk_userspace
  keeps_vk_userspace type words = ground arith

  keeps_name :
      (mem words : List ℕ) (p : ℕ) {t : Turn}
      → register_name mem words p s ≡ some t
      → index_of (state_of t) ≡ index_of s
  unfolding register_name
  keeps_name mem words p e = ground arith

  keeps_statusmessage :
      (mem : List ℕ) (p : ℕ) {t : Turn}
      → set_statusmessage mem p s ≡ some t
      → index_of (state_of t) ≡ index_of s
  unfolding set_statusmessage
  keeps_statusmessage mem p e = ground arith

  keeps_filter : (words : List ℕ) → index_of (state_of (add_filter words s)) ≡ index_of s
  unfolding add_filter
  keeps_filter words = ground arith

  keeps_item :
      (type : ℕ) (words : List ℕ) → index_of (state_of (add_item type words s)) ≡ index_of s
  unfolding add_item push_item
  keeps_item type words = ground arith

-- What holds of every branch holds of the chain of tests in `read_block`.
by_type :
    (P : Option Turn → Type 0) (a b c d e f g : Bool) {t u v w x y z last : Option Turn}
    → P t
    → P u
    → P v
    → P w
    → P x
    → P y
    → P z
    → P last
    → P (
        if a
        then t
        else if b
        then u
        else if c
        then v
        else if d
        then w
        else if e
        then x
        else if f
        then y
        else if g
        then z
        else last)
by_type P true b c d e f g ht hu hv hw hx hy hz hl = ht
by_type P false true c d e f g ht hu hv hw hx hy hz hl = hu
by_type P false false true d e f g ht hu hv hw hx hy hz hl = hv
by_type P false false false true e f g ht hu hv hw hx hy hz hl = hw
by_type P false false false false true f g ht hu hv hw hx hy hz hl = hx
by_type P false false false false false true g ht hu hv hw hx hy hz hl = hy
by_type P false false false false false false true ht hu hv hw hx hy hz hl = hz
by_type P false false false false false false false ht hu hv hw hx hy hz hl = hl

read_block-index :
    (mem : List ℕ) (p : ℕ) (words : List ℕ) (s : State) {t : Turn}
    → read_block mem p words s ≡ some t
    → index_of (state_of t) ≡ index_of s
unfolding read_block
read_block-index mem p [] s e = ground arith
read_block-index mem p (type ∷ words) s {t} e0 =
    by_type (λ o. o ≡ some t → index_of (state_of t) ≡ index_of s)
      (ltb Bridge.remaptype_none type && ltb type Bridge.remaptype_end)
      (ltb Bridge.filtertype_none type && ltb type Bridge.filtertype_end)
      (type == Bridge.statusmessage) (type == Bridge.modifiername) (type == Bridge.vk_modifier)
      (type == Bridge.vk_config)
      (type == Bridge.vk_change_inputsource || type == Bridge.vk_open_url)
      (λ e. ground (arith, keeps_item s type words))
      (λ e. ground (arith, keeps_filter s (type ∷ words))) (λ e. keeps_statusmessage s mem p e)
      (λ e. keeps_name s mem words p e) (λ e. ground (arith, keeps_vk_modifier s words))
      (λ e. ground (arith, keeps_vk_config s words))
      (λ e. ground (arith, keeps_vk_userspace s type words)) (λ e. ground arith) e0

read_next-index :
    (mem : List ℕ) (p last : ℕ) (s : State) {c : Cursor}
    → read_next mem p last s ≡ some c
    → index_of (state_at c) ≡ index_of s
unfolding read_next
read_next-index mem p last s e = elim (Option-cases (get_elem? mem p)) [
  | inl x ↦ ground (arith, x)
  | inr (size, x) ↦ elim (Option-cases (read_words mem (p + 1) size)) [
    | inl y ↦ ground (arith, x, y)
    | inr (words, y) ↦ elim (Option-cases (read_block mem (p + 1) words s)) [
      | inl z ↦ ground (arith, x, y, z)
      | inr (go_on s', z) ↦ ground (arith, x, y, z, read_block-index mem (p + 1) words s z)
      | inr (return_early s', z) ↦ ground (arith, x, y, z, read_block-index mem (p + 1) words s z)
    ]
  ]
]

read_blocks-index :
    (n : ℕ) (mem : List ℕ) (p last : ℕ) (s : State) {s' : State}
    → read_blocks n mem p last s ≡ some s'
    → index_of s' ≡ index_of s
unfolding read_blocks
read_blocks-index zero mem p last s e = cc
read_blocks-index (suc n) mem p last s {s'} e = elim (Option-cases (read_next mem p last s)) [
  | inl x ↦ ground (arith, x)
  | inr (returned u, x) ↦ ground (arith, x, read_next-index mem p last s x)
  | inr (at p' u, x) ↦
      ground (arith, x, read_next-index mem p last s x, read_blocks-index n mem p' last u {s' = s'})
]

pub construct-index :
    (mem : List ℕ) (p vector_size configindex : ℕ) (r : Registry) {s : State}
    → construct mem p vector_size configindex r ≡ some s
    → s.0.configindex ≡ configindex
unfolding construct
construct-index mem p vector_size configindex r {s} e = ground (
  arith,
  read_blocks-index (vector_size + 1) mem p (p + vector_size)
      (
        record {
          items = [];
          statusmessage = none;
          enabled = false;
          is_simultaneouskeypresses = false;
          configindex = configindex;
        },
        record r { allocation_count = r.allocation_count + vector_size },
      )
      {s' = s},
)
