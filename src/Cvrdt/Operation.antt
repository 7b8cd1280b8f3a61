-- ===== src/Cvrdt/Operation.antt =====
-- cvrdt/operations.go: logical identifiers with their vector clock, causality and the two kinds
-- of operation. A nil clock reads and ranges like an empty one.
pub mod Causality
pub mod Compare
use conver_go.Base.{
  Bool, Map, Option, Text, [], codes, eqb_ℤ, false, has, if◌then◌else◌, ltb_ℤ, none, not, pos, some,
  text_Eq, text_lt, true, ℤ, ◌&&◌, ◌==◌, ◌||◌, ◌∷◌,
}
use conver_go.Cvrdt.Clock.{clock_at}
use conver_go.Cvrdt.Character.{WCharacterData}

-- `OpType` is an `int`: the two named values, and any other that a peer may send.
pub data OpType : Type 0 where
  insertion deletion : OpType
  unknown : ℤ → OpType

-- `OpType.String`
unfoldable pub op_type_name : OpType → Text
op_type_name insertion = codes "Insertion"
op_type_name deletion = codes "Deletion"
op_type_name (unknown n) = codes "Unknown"

unfoldable pub is_deletion : OpType → Bool
is_deletion deletion = true
is_deletion insertion = false
is_deletion (unknown n) = false

unfoldable pub is_insertion : OpType → Bool
is_insertion insertion = true
is_insertion deletion = false
is_insertion (unknown n) = false

pub record LogicalId : Type 0 where
  pub site_id : Text
  pub clock : Map Text ℤ

unfoldable pub get_logical_clock : LogicalId → ℤ
get_logical_clock lid = clock_at lid.clock lid.site_id

-- The first loop of `HappenedBefore`: `none` where it returns false, else `strictlyLess`.
unfoldable pub entries_below : Map Text ℤ → Map Text ℤ → Bool → Option Bool
entries_below other [] strictly_less = some strictly_less
entries_below other ((site, clock) ∷ rest) strictly_less =
    let below = entries_below other rest (strictly_less || ltb_ℤ clock (clock_at other site)) in
    if ltb_ℤ (clock_at other site) clock then none else below

-- The second loop: the entries of `other` that `lid` does not have.
unfoldable pub entries_new : Map Text ℤ → Map Text ℤ → Bool → Bool
entries_new lid [] strictly_less = strictly_less
entries_new lid ((site, clock) ∷ rest) strictly_less =
    entries_new lid rest (strictly_less || (not (has site lid) && ltb_ℤ (pos 0) clock))

unfoldable pub happened_before_entries : Map Text ℤ → Map Text ℤ → Bool
happened_before_entries [] other = false
happened_before_entries (e ∷ lid) other = elim (entries_below other (e ∷ lid) false) [
  | none ↦ false
  | some strictly_less ↦ entries_new (e ∷ lid) other strictly_less
]

unfoldable pub happened_before : LogicalId → LogicalId → Bool
happened_before lid other = happened_before_entries lid.clock other.clock

-- `less` of a logical identifier
unfoldable pub lid_less : LogicalId → LogicalId → Bool
lid_less lid other =
    if happened_before lid other
    then true
    else if happened_before other lid
    then false
    else text_lt lid.site_id other.site_id

-- `equals` of a logical identifier
unfoldable pub lid_equals : LogicalId → LogicalId → Bool
lid_equals lid other =
    (lid.site_id == other.site_id) && eqb_ℤ (get_logical_clock lid) (get_logical_clock other)

-- The results -1, 0 and 1 of `Compare`.
pub data Cmp : Type 0 where
  below same above : Cmp

unfoldable pub compare_id : LogicalId → LogicalId → Cmp
compare_id lid other =
    if lid_equals lid other then same else if lid_less lid other then below else above

pub record WootOperation : Type 0 where
  pub id : LogicalId
  pub op_type : OpType
  pub character : WCharacterData

pub record LocalOperation : Type 0 where
  pub op_type : OpType
  pub position : ℤ
  pub content : Text
  pub id : Text

unfoldable pub create_new_local_op : OpType → ℤ → Text → Text → LocalOperation
create_new_local_op op_type p content id = record {
  op_type = op_type;
  position = p;
  content = content;
  id = id;
}

-- The values that implement `CRDTOperation`.
pub data CrdtOperation : Type 0 where
  woot : WootOperation → CrdtOperation
  local : LocalOperation → CrdtOperation

-- `OpId`
unfoldable pub op_id : CrdtOperation → LogicalId
op_id (woot w) = w.id
op_id (local o) = record { site_id = o.id; clock = (o.id, pos 0) ∷ [] }

-- `Op`
unfoldable pub op_kind : CrdtOperation → OpType
op_kind (woot w) = w.op_type
op_kind (local o) = o.op_type

-- `Char`
unfoldable pub op_char : CrdtOperation → Text
op_char (woot w) = w.character.alpha_value
op_char (local o) = o.content

-- `CompareOperation`
unfoldable pub compare_operation : CrdtOperation → CrdtOperation → Cmp
compare_operation op other = compare_id (op_id op) (op_id other)
