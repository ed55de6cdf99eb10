-- ===== src/RemapClass.antt =====
-- `RemapClass` of core/kext/RemapClass.hpp and RemapClass.cpp, and what it is made of: the words of
-- an initialize vector, read block by block. A read outside of the memory that holds the vector is a
-- fault, for which none stands.
pub mod Safety
pub mod ConfigIndex
pub mod Manager
pub mod Rules
pub mod Refresh
use karabiner_cn.Base.{
  ℕ, zero, suc, ◌+◌, ◌-◌, ◌*◌, ◌/◌, ◌%◌, ◌^◌, Bool, true, false, ◌&&◌, ◌||◌, List, [], ◌∷◌, ◌++◌,
  Option, none, some, ◌==◌, ltb, if◌then◌else◌, length, get_elem?, drop, bit_or,
}
use karabiner_cn.Bridge
use karabiner_cn.KeyCodeModifierFlagPairs.{Pair, make_pair, register_virtual_modifier}
use karabiner_cn.RemapFilter
use karabiner_cn.RemapFilter.{Filter}
use karabiner_cn.StrlcpyUtf8.{strlcpy}

-- `Option::IGNORE_PASSTHROUGH`.
abbrev pub option_ignore_passthrough : ℕ
option_ignore_passthrough = 1

-- `RemapFuncBase`: its type, its flag, and the calls of `add` that its class has got.
pub record Processor : Type 0 where
  pub type : ℕ
  pub ignore_pass_through : Bool
  pub added : List (ℕ × ℕ)
  pub autogen_id : ℕ

-- The loop of `RemapFuncFactory::create` over the pairs of words. A word that is left over is
-- dropped.
unfoldable pub add_words : Processor → List ℕ → Processor
add_words p [] = p
add_words p (d ∷ []) = p
add_words p (d ∷ v ∷ rest) =
    add_words
      (if d == Bridge.datatype_option && v == option_ignore_passthrough
        then record p { ignore_pass_through = true }
        else record p { added = p.added ++ ((d, v) ∷ []) })
      rest

-- `RemapFuncFactory::create`; none is the null pointer. A class stands for each type between the
-- two bounds.
unfoldable pub create_processor : List ℕ → ℕ → Option Processor
unfolding add_words
create_processor [] autogen_id = none
create_processor (type ∷ words) autogen_id =
    if ltb Bridge.remaptype_none type && ltb type Bridge.remaptype_end
    then some (
        add_words
          (record { type = type; ignore_pass_through = false; added = []; autogen_id = autogen_id })
          words)
    else none

-- `RemapClass::Item`.
pub record Item : Type 0 where
  pub processor : Option Processor
  pub filters : List Filter

-- `RemapClass`. An array of bytes is a C string, and its null pointer is none.
pub record RemapClass : Type 0 where
  pub items : List Item
  pub statusmessage : Option (List ℕ)
  pub enabled : Bool
  pub is_simultaneouskeypresses : Bool
  pub configindex : ℕ

-- What is registered outside of the class: virtual modifiers and their names, and the items of
-- `VK_CONFIG` and `VK_DEFINED_IN_USERSPACE`, with the class that they belong to. The count of
-- allocated words is kept for all classes.
pub record Registry : Type 0 where
  pub pairs : List Pair
  pub names : List (ℕ × List ℕ)
  pub vk_config : List (ℕ × List ℕ)
  pub vk_defined_in_userspace : List (ℕ × ℕ × ℕ)
  pub allocation_count : ℕ

abbrev pub State : Type 0
State = RemapClass × Registry

-- The words from a position on, as many as are asked for.
unfoldable pub read_words : List ℕ → ℕ → ℕ → Option (List ℕ)
read_words mem p zero = some []
read_words mem p (suc n) = elim (get_elem? mem p) [
  | none ↦ none
  | some w ↦ elim (read_words mem (p + 1) n) [ none ↦ none | some ws ↦ some (w ∷ ws) ]
]

-- The bytes of the words, in little-endian order.
abbrev pub bytes : List ℕ → List ℕ
bytes [] = []
bytes (w ∷ ws) = w % 256 ∷ w / 256 % 256 ∷ w / 256 ^ 2 % 256 ∷ w / 256 ^ 3 % 256 ∷ bytes ws

-- The C string that begins with the first byte.
abbrev pub c_string : List ℕ → Option (List ℕ)
c_string [] = none
c_string (b ∷ bs) =
    let rest = c_string bs in
    if b == 0 then some [] else elim rest [ none ↦ none | some s ↦ some (b ∷ s) ]

-- `strlcpy` of the C string at a position, into a buffer of `size` bytes. It reads the string to its
-- end even if the buffer is shorter.
unfoldable pub read_string : ℕ → List ℕ → ℕ → Option (List ℕ)
unfolding strlcpy
read_string size mem p = elim (c_string (bytes (drop p mem))) [
  | none ↦ none
  | some s ↦ strlcpy size s
]

-- `RemapClass::Item::Item`, pushed to the items of the class.
unfoldable pub push_item : List ℕ → RemapClass → RemapClass
unfolding create_processor
push_item words c = record c {
  items =
      c.items
      ++ (record {
        processor = create_processor words (bit_or (c.configindex * 2 ^ 32) (length c.items + 1));
        filters = [];
      }
          ∷ []);
}

-- `append_filter` on the last item; none if there is no item.
unfoldable pub append_filter : List ℕ → List Item → Option (List Item)
unfolding RemapFilter.create
append_filter words [] = none
append_filter words (i ∷ []) = elim (RemapFilter.create words) [
  | none ↦ some (i ∷ [])
  | some f ↦ some (record i { filters = i.filters ++ (f ∷ []) } ∷ [])
]
append_filter words (i ∷ j ∷ is) = elim (append_filter words (j ∷ is)) [
  | none ↦ none
  | some js ↦ some (i ∷ js)
]

-- What the constructor does with a block: it goes on, or it returns early.
pub data Turn : Type 0 where
  go_on : State → Turn
  return_early : State → Turn

-- `VirtualKey::VK_CONFIG::add_item` and its kin, for the words behind the type.
unfoldable pub register_vk_modifier : List ℕ → State → Turn
register_vk_modifier (m ∷ k ∷ l ∷ l1 ∷ l0 ∷ n ∷ n1 ∷ n0 ∷ s ∷ s1 ∷ s0 ∷ []) (c, r) = go_on (
  c,
  record r { pairs = register_virtual_modifier r.pairs (make_pair m k l l1 l0 n n1 n0 s s1 s0) },
)
register_vk_modifier words s = return_early s

unfoldable pub register_vk_config : List ℕ → State → Turn
register_vk_config (t ∷ f1 ∷ f0 ∷ sync ∷ []) (c, r) =
    go_on
      (c, record r { vk_config = r.vk_config ++ ((c.configindex, t ∷ f1 ∷ f0 ∷ sync ∷ []) ∷ []) })
register_vk_config words s = return_early s

unfoldable pub register_vk_userspace : ℕ → List ℕ → State → Turn
register_vk_userspace type (k ∷ []) (c, r) = go_on (
  c,
  record r {
    vk_defined_in_userspace = r.vk_defined_in_userspace ++ ((c.configindex, k, type) ∷ []);
  },
)
register_vk_userspace type words s = return_early s

-- `MAXLEN` of a modifier's name.
abbrev pub modifier_name_maxlen : ℕ
modifier_name_maxlen = 32

-- A name of at least two words behind the type: the modifier, and the string at position `p + 2`.
unfoldable pub register_name : List ℕ → List ℕ → ℕ → State → Option Turn
unfolding read_string
register_name mem (m ∷ w ∷ words) p (c, r) = elim (read_string modifier_name_maxlen mem (p + 2)) [
  | none ↦ none
  | some name ↦ some (go_on (c, record r { names = r.names ++ ((m, name) ∷ []) }))
]
register_name mem words p s = some (return_early s)

-- A filter for the last item, or none to put it on.
unfoldable pub add_filter : List ℕ → State → Turn
unfolding append_filter
add_filter words (c, r) = elim (append_filter words c.items) [
  | none ↦ return_early (c, r)
  | some is ↦ go_on (record c { items = is }, r)
]

unfoldable pub set_statusmessage : List ℕ → ℕ → State → Option Turn
unfolding read_string
set_statusmessage mem p (c, r) = elim (read_string Bridge.status_message_maxlen mem (p + 1)) [
  | none ↦ none
  | some s ↦ some (go_on (record c { statusmessage = some s }, r))
]

unfoldable pub add_item : ℕ → List ℕ → State → Turn
unfolding push_item
add_item type words (c, r) =
    let c' = push_item (type ∷ words) c in
    go_on (
      record c' {
        is_simultaneouskeypresses =
            type == Bridge.remaptype_simultaneouskeypresses || c.is_simultaneouskeypresses;
      },
      r,
    )

-- The block at position `p`, by its type.
unfoldable pub read_block : List ℕ → ℕ → List ℕ → State → Option Turn
unfolding add_item add_filter set_statusmessage register_name register_vk_modifier
    register_vk_config register_vk_userspace
read_block mem p [] s = some (go_on s)
read_block mem p (type ∷ words) s =
    if ltb Bridge.remaptype_none type && ltb type Bridge.remaptype_end
    then some (add_item type words s)
    else if ltb Bridge.filtertype_none type && ltb type Bridge.filtertype_end
    then some (add_filter (type ∷ words) s)
    else if type == Bridge.statusmessage
    then set_statusmessage mem p s
    else if type == Bridge.modifiername
    then register_name mem words p s
    else if type == Bridge.vk_modifier
    then some (register_vk_modifier words s)
    else if type == Bridge.vk_config
    then some (register_vk_config words s)
    else if type == Bridge.vk_change_inputsource || type == Bridge.vk_open_url
    then some (register_vk_userspace type words s)
    else some (return_early s)

-- Where the loop of the constructor is after a turn: behind a block, or at a return.
pub data Cursor : Type 0 where
  at : ℕ → State → Cursor
  returned : State → Cursor

abbrev pub behind : ℕ → Turn → Cursor
behind p (go_on s) = at p s
behind p (return_early s) = returned s

-- A turn at `p`: the size of the block and the block, if it ends within `last`.
unfoldable pub read_next : List ℕ → ℕ → ℕ → State → Option Cursor
unfolding read_words read_block
read_next mem p last s = elim (get_elem? mem p) [
  | none ↦ none
  | some size ↦
      if ltb last (p + 1 + size) then some (returned s) else elim (read_words mem (p + 1) size) [
        | none ↦ none
        | some words ↦ elim (read_block mem (p + 1) words s) [
          | none ↦ none
          | some turn ↦ some (behind (p + 1 + size) turn)
        ]
      ]
]

-- The loop of the constructor from `p` to `last`, on fuel. It ends at `last`, or early.
unfoldable pub read_blocks : ℕ → List ℕ → ℕ → ℕ → State → Option State
unfolding read_next
read_blocks zero mem p last s = none
read_blocks (suc n) mem p last s =
    if p == last || ltb last p then some s else elim (read_next mem p last s) [
      | none ↦ none
      | some (returned s') ↦ some s'
      | some (at p' s') ↦ read_blocks n mem p' last s'
    ]

-- `MAX_ALLOCATION_COUNT`.
abbrev pub max_allocation_count : ℕ
max_allocation_count = 8 * 1024 * 1024 / 4

-- The constructor `RemapClass(initialize_vector, vector_size, configindex)`, for the words from `p`
-- on.
unfoldable pub construct : List ℕ → ℕ → ℕ → ℕ → Registry → Option State
unfolding read_blocks
construct mem p vector_size configindex r =
    let c : RemapClass = record {
      items = [];
      statusmessage = none;
      enabled = false;
      is_simultaneouskeypresses = false;
      configindex = configindex;
    } in
    if ltb max_allocation_count (r.allocation_count + vector_size)
    then some (c, r)
    else read_blocks (vector_size + 1) mem p (p + vector_size)
        (c, record r { allocation_count = r.allocation_count + vector_size })
