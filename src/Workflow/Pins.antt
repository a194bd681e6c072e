-- ===== src/Workflow/Pins.antt =====
-- renderers/workflow/workflow-migration-geometry.mjs: the projections of a workflow to schema version
-- 2, and the mapping of its explicit X coordinates to other columns. A document is parsed JSON, of
-- which `clone` is an equal copy; the arithmetic on its numbers is a parameter.
use codearmory_blacksmith.Base.{
  ℕ, suc, Text, codes, List, [], ◌∷◌, ◌++◌, Bool, true, false, not, ◌&&◌, ◌||◌, some, ◌⊎◌, inl, inr,
  text_eq, includes, if◌then◌else◌, ◌==◌, length,
}
use codearmory_blacksmith.Json.{
  Value, Items, Fields, Number, undefined, num, str, arr, obj, nil, cons, end, field, fields_of,
  get, coerce, is_truthy, is_text,
}
use codearmory_blacksmith.Json.Size.{natural_number}

-- `document.key = value`, on an object
unfoldable pub set_field : Text → Value → Fields → Fields
unfolding text_eq
set_field k x end = field k x end
set_field k x (field j v fs) =
    let rest = set_field k x fs in if text_eq j k then field j x fs else field j v rest

unfoldable pub set_in : Text → Value → Value → Value
unfolding set_field
set_in k x v = obj (set_field k x (fields_of v))

-- `delete document.key`
unfoldable pub remove_field : Text → Fields → Fields
unfolding text_eq
remove_field k end = end
remove_field k (field j v fs) =
    let rest = remove_field k fs in if text_eq j k then rest else field j v rest

abbrev pub target_version : Value
target_version = num (record { natural = some 2; text = codes "2" })

abbrev pub view_box : Text
view_box = codes "viewBox"

unfoldable pub without_view_box : Value → Value
unfolding get set_in remove_field
without_view_box w =
    set_in (codes "meta") (obj (remove_field view_box (fields_of (get w (codes "meta"))))) w

unfoldable pub intrinsic_workflow : Value → Value
unfolding without_view_box set_in
intrinsic_workflow w = without_view_box (set_in (codes "schema_version") target_version w)

abbrev is_array : Value → Bool
is_array (arr xs) = true
is_array _ = false

abbrev is_undefined : Value → Bool
is_undefined undefined = true
is_undefined _ = false

abbrev has_routed_geometry : Value → Bool
has_routed_geometry e =
    is_array (get e (codes "via"))
    || (is_truthy (get e (codes "route"))
        && not (
            is_text (get e (codes "route")) (codes "auto")
            || is_text (get e (codes "route")) (codes "straight")))
    || not (is_undefined (get e (codes "channelX")))
    || not (is_undefined (get e (codes "channelY")))

abbrev kept_properties : List Text
kept_properties =
    codes "id" ∷ codes "from" ∷ codes "to" ∷ codes "variant" ∷ codes "role" ∷ codes "width" ∷ []

-- `if (edge[key] !== undefined) automatic[key] = edge[key]`, for each key, before the other fields
abbrev picked : List Text → Value → Fields → Fields
picked [] e rest = rest
picked (k ∷ ks) e rest =
    if is_undefined (get e k) then picked ks e rest else field k (get e k) (picked ks e rest)

abbrev straight_route : Value → Fields → Fields
straight_route e rest =
    if is_text (get e (codes "route")) (codes "straight")
    then field (codes "route") (str (codes "straight")) rest
    else rest

abbrev automatic_label : Value → Fields
automatic_label e =
    if is_undefined (get e (codes "labelAt")) && not (is_undefined (get e (codes "label")))
    then field (codes "label") (get e (codes "label")) end
    else end

unfoldable pub planned_edges : Items → Items
unfolding get
planned_edges nil = nil
planned_edges (cons e rest) =
    let others = planned_edges rest in
    if has_routed_geometry e
    then others
    else cons (obj (picked kept_properties e (straight_route e (automatic_label e)))) others

abbrev pub items_in : Value → Items
items_in (arr xs) = xs
items_in _ = nil

abbrev pair_keys : Items → List Text
pair_keys nil = []
pair_keys (cons e rest) =
    (coerce (get e (codes "from")) ++ (0 ∷ coerce (get e (codes "to")))) ∷ pair_keys rest

-- Some step of the path is not among the pairs.
unfoldable pub breaks_path : List Text → Items → Bool
unfolding includes coerce
breaks_path pairs nil = false
breaks_path pairs (cons v nil) = false
breaks_path pairs (cons v (cons u rest)) =
    not (includes (coerce v ++ (0 ∷ coerce u)) pairs) || breaks_path pairs (cons u rest)

abbrev without_broken_path : Value → Value → Value
without_broken_path (arr path) w =
    if breaks_path (pair_keys (items_in (get w (codes "edges")))) path
    then obj (remove_field (codes "mainPath") (fields_of w))
    else w
without_broken_path _ w = w

unfoldable pub planning_workflow : Value → Value
unfolding intrinsic_workflow planned_edges set_in get
planning_workflow w =
    let intrinsic = intrinsic_workflow w in
    let planned =
      set_in (codes "edges") (arr (planned_edges (items_in (get intrinsic (codes "edges")))))
        intrinsic in
    without_broken_path (get planned (codes "mainPath")) planned

-- What the program asks of finite doubles; `fixed` is `Number(x.toFixed(6))`.
pub record Doubles : Type 0 where
  pub less : Number → Number → Bool
  pub plus : Number → Number → Number
  pub minus : Number → Number → Number
  pub times : Number → Number → Number
  pub divided : Number → Number → Number
  pub fixed : Number → Number

-- A coordinate that the mapping changed, by its path.
pub record Change : Type 0 where
  pub path : Text
  pub from : Number
  pub to : Number

module _ (d : Doubles) where
  abbrev increases : List Number → Bool
  increases [] = true
  increases (x ∷ []) = true
  increases (x ∷ y ∷ rest) = d.less x y && increases (y ∷ rest)

  -- The segment of the columns that a coordinate is in, by its four ends; the last holds what is to
  -- the right of it, the first what is to the left.
  unfoldable pub map_from : Number → Number → Number → List Number → List Number → Number
  map_from x o n [] ns = x
  map_from x o n (o' ∷ os) [] = x
  map_from x o n (o' ∷ []) (n' ∷ ns) =
      d.fixed (d.plus n (d.times (d.divided (d.minus x o) (d.minus o' o)) (d.minus n' n)))
  map_from x o n (o' ∷ o'' ∷ os) (n' ∷ ns) =
      let further = map_from x o' n' (o'' ∷ os) ns in
      if d.less o' x
      then further
      else d.fixed (d.plus n (d.times (d.divided (d.minus x o) (d.minus o' o)) (d.minus n' n)))

  abbrev unmatched : Text
  unmatched = codes "Horizontal rank mapping requires matching finite column arrays."

  abbrev unordered : Text
  unordered = codes "Horizontal rank mapping requires strictly increasing columns."

  -- The message of the `TypeError`, or the mapping.
  unfoldable pub create_horizontal_rank_mapper :
      List Number → List Number → Text ⊎ (Number → Number)
  unfolding map_from
  create_horizontal_rank_mapper (o ∷ o' ∷ os) (n ∷ n' ∷ ns) =
      if not (length os == length ns)
      then inl unmatched
      else if increases (o ∷ o' ∷ os) && increases (n ∷ n' ∷ ns)
      then inr (λ x. map_from x o n (o' ∷ os) (n' ∷ ns))
      else inl unordered
  create_horizontal_rank_mapper _ _ = inl unmatched

module _ (d : Doubles) (map_x : Number → Number) where
  -- `record`: the change of a coordinate, if it is one.
  abbrev recorded : Text → Number → List Change
  recorded path from =
      if d.less (map_x from) from || d.less from (map_x from)
      then record { path = path; from = from; to = map_x from } ∷ []
      else []

  -- A point, or the place of a label, by its path.
  abbrev map_point : Text → Value → Value × List Change
  map_point path (arr (cons (num x) rest)) =
      (arr (cons (num (map_x x)) rest), recorded (path ++ codes "/0") x)
  map_point path v = (v, [])

  abbrev map_points : Text → ℕ → Items → Items × List Change
  map_points path i nil = (nil, [])
  map_points path i (cons p rest) =
      let now = map_point (path ++ (codes "/" ++ (natural_number i).text)) p in
      let more = map_points path (suc i) rest in (cons now.0 more.0, now.1 ++ more.1)

  abbrev map_via : Text → Value → Value → Value × List Change
  map_via path (arr points) e =
      let now = map_points (path ++ codes "/via") 0 points in
      (set_in (codes "via") (arr now.0) e, now.1)
  map_via path v e = (e, [])

  abbrev map_label : Text → Value → Value → Value × List Change
  map_label path (arr (cons (num x) rest)) e =
      let now = map_point (path ++ codes "/labelAt") (arr (cons (num x) rest)) in
      (set_in (codes "labelAt") now.0 e, now.1)
  map_label path v e = (e, [])

  abbrev map_channel : Text → Value → Value → Value × List Change
  map_channel path (num x) e =
      (set_in (codes "channelX") (num (map_x x)) e, recorded (path ++ codes "/channelX") x)
  map_channel path v e = (e, [])

  -- One round of the loop over the edges.
  unfoldable pub map_edge : ℕ → Value → Value × List Change
  unfolding natural_number get set_in
  map_edge i e =
      let path = codes "/edges/" ++ (natural_number i).text in
      let v = map_via path (get e (codes "via")) e in
      let l = map_label path (get v.0 (codes "labelAt")) v.0 in
      let c = map_channel path (get l.0 (codes "channelX")) l.0 in (c.0, v.1 ++ (l.1 ++ c.1))

  unfoldable pub map_edges : ℕ → Items → Items × List Change
  unfolding map_edge
  map_edges i nil = (nil, [])
  map_edges i (cons e rest) =
      let now = map_edge i e in
      let more = map_edges (suc i) rest in (cons now.0 more.0, now.1 ++ more.1)

  unfoldable pub map_explicit_coordinates : Value → Value × List Change
  unfolding map_edges get set_in
  map_explicit_coordinates w =
      let edges = map_edges 0 (items_in (get w (codes "edges"))) in
      (set_in (codes "edges") (arr edges.0) w, edges.1)

abbrev pub mapped_by : Doubles → Value → Text ⊎ (Number → Number) → Text ⊎ (Value × List Change)
mapped_by d w (inl message) = inl message
mapped_by d w (inr map_x) =
    inr (map_explicit_coordinates d map_x (set_in (codes "schema_version") target_version w))

unfoldable pub create_mapped_workflow_candidate :
    Doubles → Value → List Number → List Number → Text ⊎ (Value × List Change)
unfolding create_horizontal_rank_mapper map_explicit_coordinates set_in
create_mapped_workflow_candidate d w old new =
    mapped_by d w (create_horizontal_rank_mapper d old new)
