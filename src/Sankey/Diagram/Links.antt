-- ===== src/Sankey/Diagram/Links.antt =====
-- frontend/src/domain/SankeyCalculator.ts: the diagram can always be drawn.
use sumurai.Prelude.{
  ◌⊎◌, ◌||◌, ℕ, zero, suc, ◌≡◌, ◌≤◌, refl, sym, ap, Bool, true, false, Option, none, some,
  some-injective, List, [], ◌∷◌, ◌++◌, map, length, All, All-map, if◌then◌else◌, ◌==◌, ◌>>=◌, arith,
  inl, inr,
}
use sumurai.Prelude.Int.{pos_part}
use sumurai.Prelude.Text.{Text, lit, eq, contains}
use sumurai.Prelude.Sets.{NoDup, NoDup-snoc}
use sumurai.Types.{Transaction}
use sumurai.Sankey.{
  Entries, CategoryFlow, Flows, no_flows, flows_from, net_savings, shown_subcategories,
}
use sumurai.Sankey.Diagram.{
  SankeyNode, SankeyLink, Diagram, later, node_index, node_at, place_node, add_node, new_link,
  add_link, add_into, add_from, add_sources, add_deficit, add_subcategories, subcategories_if,
  add_categories, add_savings, empty_diagram, sorted_categories, income_diagram, spending_diagram,
  diagram_of, SankeyCalculationResult, compute_sankey_data, result_of, source_node,
  subcategory_node, category_node, savings_node, income_hub, spending_hub,
}

abbrev pub node_ids : List SankeyNode → List Text
node_ids ns = map (λ n. n.id) ns

-- Both ends of a link are nodes of the list, under the ids that the link names, and something flows.
abbrev pub IsLinked : List SankeyNode → SankeyLink → Type 0
IsLinked ns l =
    (a : SankeyNode) × (b : SankeyNode) × (node_at l.source ns ≡ some a)
    × (node_at l.target ns ≡ some b)
    × (l.source_id ≡ a.id)
    × (l.target_id ≡ b.id)
    × (1 ≤ l.value)

pub record IsDrawn (d : Diagram) : Type 0 where
  pub ids_once : NoDup (node_ids d.nodes)
  pub linked : All (IsLinked d.nodes) d.links

abbrev Extends : List SankeyNode → List SankeyNode → Type 0
Extends ns ms = (i : ℕ) (a : SankeyNode) → node_at i ns ≡ some a → node_at i ms ≡ some a

abbrev Holds : ℕ → List SankeyNode → Type 0
Holds i ns = (a : SankeyNode) × (node_at i ns ≡ some a)

-- A step that gives a diagram, with all nodes of the one before.
abbrev Draws : Diagram → Option Diagram → Type 0
Draws d o = (e : Diagram) × (o ≡ some e) × IsDrawn e × Extends d.nodes e.nodes

abbrev DrawsAt : Diagram → Option (ℕ × Diagram) → Type 0
DrawsAt d o =
    (i : ℕ) × (e : Diagram) × (o ≡ some (i, e))
    × IsDrawn e
    × Extends d.nodes e.nodes
    × Holds i e.nodes

index_cases :
    (b : Bool) (o : Option ℕ) (k : ℕ)
    → (if b then some 0 else later o) ≡ some k
    → (k ≡ 0) ⊎ ((j : ℕ) × (o ≡ some j) × (k ≡ suc j))
unfolding later
index_cases true o k h = inl (sym (some-injective _ _ h))
index_cases false none k h = cc
index_cases false (some j) k h = inr (j, refl, sym (some-injective _ _ h))

node_index-some : (i : Text) (ns : List SankeyNode) (k : ℕ) → node_index i ns ≡ some k → Holds k ns
unfolding node_index node_at
node_index-some i [] k h = cc
node_index-some i (n ∷ ns) k h = elim (index_cases (eq n.id i) (node_index i ns) k h) [
  | inl e ↦ (n, rw e refl)
  | inr (j, p, e) ↦ let (a, q) = node_index-some i ns j p in (a, rw e q)
]

later-none : (o : Option ℕ) → later o ≡ none → o ≡ none
unfolding later
later-none none h = refl
later-none (some i) h = cc

absent :
    (b c : Bool) (o : Option ℕ)
    → (if b then some 0 else later o) ≡ none
    → (o ≡ none → c ≡ false)
    → (b || c) ≡ false
absent true c o h f = cc
absent false c o h f = f (later-none o h)

node_index-none :
    (i : Text) (ns : List SankeyNode) → node_index i ns ≡ none → contains (node_ids ns) i ≡ false
unfolding node_index
node_index-none i [] h = refl
node_index-none i (n ∷ ns) h =
    absent (eq n.id i) _ (node_index i ns) h (λ p. node_index-none i ns p)

node_at-append :
    (i : ℕ) (ns : List SankeyNode) (n a : SankeyNode)
    → node_at i ns ≡ some a
    → node_at i (ns ++ n ∷ []) ≡ some a
unfolding node_at
node_at-append i [] n a h = cc
node_at-append zero (m ∷ ns) n a h = h
node_at-append (suc i) (m ∷ ns) n a h = node_at-append i ns n a h

node_at_last : (ns : List SankeyNode) (n : SankeyNode) → node_at (length ns) (ns ++ n ∷ []) ≡ some n
unfolding node_at
node_at_last [] n = refl
node_at_last (m ∷ ns) n = node_at_last ns n

node_ids-snoc :
    (ns : List SankeyNode) (n : SankeyNode) → node_ids (ns ++ n ∷ []) ≡ node_ids ns ++ n.id ∷ []
node_ids-snoc [] n = refl
node_ids-snoc (m ∷ ns) n = ap (λ l. m.id ∷ l) (node_ids-snoc ns n)

IsLinked-Extends :
    (ns ms : List SankeyNode) → Extends ns ms → (l : SankeyLink) → IsLinked ns l → IsLinked ms l
IsLinked-Extends ns ms f l (a, b, p, q, r, s, t) = (a, b, f l.source a p, f l.target b q, r, s, t)

place_node-lem :
    (o : Option ℕ) (n : SankeyNode) (d : Diagram)
    → node_index n.id d.nodes ≡ o
    → IsDrawn d
    → IsDrawn (place_node o n d).1
      × Extends d.nodes (place_node o n d).1.nodes
      × Holds (place_node o n d).0 (place_node o n d).1.nodes
unfolding place_node
place_node-lem (some k) n d h v = (v, λ i a p. p, node_index-some n.id d.nodes k h)
place_node-lem none n d h v =
    let grows : Extends d.nodes (d.nodes ++ n ∷ []) = λ i a p. node_at-append i d.nodes n a p in
    (
      record {
        ids_once =
            rw (node_ids-snoc d.nodes n)
              (NoDup-snoc (node_ids d.nodes) n.id v.ids_once (node_index-none n.id d.nodes h));
        linked = All-map (IsLinked-Extends d.nodes (d.nodes ++ n ∷ []) grows) d.links v.linked;
      },
      grows,
      (n, node_at_last d.nodes n),
    )

add_node-lem :
    (n : SankeyNode) (d : Diagram)
    → IsDrawn d
    → IsDrawn (add_node n d).1
      × Extends d.nodes (add_node n d).1.nodes
      × Holds (add_node n d).0 (add_node n d).1.nodes
unfolding add_node
add_node-lem n d v = place_node-lem _ n d refl v

All-snoc :
    (P : SankeyLink → Type 0) (ls : List SankeyLink) (l : SankeyLink)
    → All P ls
    → P l
    → All P (ls ++ l ∷ [])
All-snoc P [] l h k = (k, tt)
All-snoc P (m ∷ ls) l (h, hs) k = (h, All-snoc P ls l hs k)

add_link-lem :
    (i j v : ℕ) (c : Text) (d : Diagram)
    → IsDrawn d
    → Holds i d.nodes
    → Holds j d.nodes
    → (e : Diagram) × (add_link i j v c d ≡ some e) × IsDrawn e × (e.nodes ≡ d.nodes)
unfolding add_link new_link
add_link-lem i j zero c d h p q = (d, refl, h, refl)
add_link-lem i j (suc v) c d h (a, p) (b, q) = (
  record d { links = d.links ++ new_link i j (suc v) c a b ∷ [] },
  rw (p, q) refl,
  record {
    ids_once = h.ids_once;
    linked = All-snoc (IsLinked d.nodes) d.links _ h.linked (a, b, p, q, refl, refl, omega arith);
  },
  refl,
)

-- A step goes on where another ended.
then-Draws : (d e : Diagram) (o : Option Diagram) → Extends d.nodes e.nodes → Draws e o → Draws d o
then-Draws d e o f (g, p, v, h) = (g, p, v, λ i a q. h i a (f i a q))

held : (i : ℕ) (ns ms : List SankeyNode) → Extends ns ms → Holds i ns → Holds i ms
held i ns ms f (a, p) = (a, f i a p)

same_Extends : (ns ms : List SankeyNode) → ms ≡ ns → Extends ns ms
same_Extends ns ms e i a p = rw e p

add_into-Draws :
    (to : ℕ) (of : SankeyNode → Text) (n : SankeyNode) (d : Diagram)
    → IsDrawn d
    → Holds to d.nodes
    → Draws d (add_into to of n d)
unfolding add_into
add_into-Draws to of n d v h =
    let (w, f, (a, p)) = add_node-lem n d v in
    let (i, d1) = add_node n d in
    let (e, q, x, same) =
      add_link-lem i to n.amount (of a) d1 w (a, p) (held to d.nodes d1.nodes f h) in
    (e, rw p q, x, λ j b r. same_Extends d1.nodes e.nodes same j b (f j b r))

add_from-DrawsAt :
    (from : ℕ) (of : SankeyNode → Text) (n : SankeyNode) (d : Diagram)
    → IsDrawn d
    → Holds from d.nodes
    → DrawsAt d (add_from from of n d)
unfolding add_from
add_from-DrawsAt from of n d v h =
    let (w, f, (a, p)) = add_node-lem n d v in
    let (i, d1) = add_node n d in
    let (e, q, x, same) =
      add_link-lem from i n.amount (of a) d1 w (held from d.nodes d1.nodes f h) (a, p) in
    (
      i,
      e,
      rw (p, q) refl,
      x,
      λ j b r. same_Extends d1.nodes e.nodes same j b (f j b r),
      held i d1.nodes e.nodes (same_Extends d1.nodes e.nodes same) (a, p),
    )

add_sources-Draws :
    (to total : ℕ) (es : Entries) (d : Diagram)
    → IsDrawn d
    → Holds to d.nodes
    → Draws d (add_sources to total es d)
unfolding add_sources
add_sources-Draws to total [] d v h = (d, refl, v, λ i a p. p)
add_sources-Draws to total ((name, amount) ∷ es) d v h =
    let (e, p, w, f) = add_into-Draws to (λ a. a.color) (source_node total name amount) d v h in
    let (g, q, x, k) = add_sources-Draws to total es e w (held to d.nodes e.nodes f h) in
    (g, rw (p, q) refl, x, λ i a r. k i a (f i a r))

add_subcategories-Draws :
    (from : ℕ) (color category : Text) (total : ℕ) (es : Entries) (d : Diagram)
    → IsDrawn d
    → Holds from d.nodes
    → Draws d (add_subcategories from color category total es d)
unfolding add_subcategories
add_subcategories-Draws from color category total [] d v h = (d, refl, v, λ i a p. p)
add_subcategories-Draws from color category total ((name, amount) ∷ es) d v h =
    let (i, e, p, w, f, m) =
      add_from-DrawsAt from (λ a. color) (subcategory_node color category total name amount) d v
        h in
    let (g, q, x, k) =
      add_subcategories-Draws from color category total es e w (held from d.nodes e.nodes f h) in
    (g, rw (p, q) refl, x, λ j a r. k j a (f j a r))

subcategories_if-Draws :
    (b : Bool) (from : ℕ) (c : CategoryFlow) (d : Diagram)
    → IsDrawn d
    → Holds from d.nodes
    → Draws d (subcategories_if b from c d)
unfolding subcategories_if
subcategories_if-Draws false from c d v h = (d, refl, v, λ i a p. p)
subcategories_if-Draws true from c d v (a, p) =
    let (e, q, w, f) =
      add_subcategories-Draws from a.color c.name c.total (shown_subcategories c) d v (a, p) in
    (e, rw p q, w, f)

add_categories-Draws :
    (b : Bool) (from total : ℕ) (cs : List CategoryFlow) (d : Diagram)
    → IsDrawn d
    → Holds from d.nodes
    → Draws d (add_categories b from total cs d)
unfolding add_categories
add_categories-Draws b from total [] d v h = (d, refl, v, λ i a p. p)
add_categories-Draws b from total (c ∷ cs) d v h =
    let (i, e, p, w, f, m) = add_from-DrawsAt from (λ a. a.color) (category_node total c) d v h in
    let (e1, q, w1, f1) = subcategories_if-Draws b i c e w m in
    let (g, r, x, k) =
      add_categories-Draws b from total cs e1 w1
        (held from e.nodes e1.nodes f1 (held from d.nodes e.nodes f h)) in
    (g, rw (p, q, r) refl, x, λ j a t. k j a (f1 j a (f j a t)))

if-Draws :
    (b : Bool) (d : Diagram) (o p : Option Diagram)
    → Draws d o
    → Draws d p
    → Draws d (if b then o else p)
if-Draws true d o p h k = h
if-Draws false d o p h k = k

add_deficit-Draws :
    (to : ℕ) (f : Flows) (d : Diagram) → IsDrawn d → Holds to d.nodes → Draws d (add_deficit to f d)
unfolding add_deficit
add_deficit-Draws to f d v h =
    if-Draws _ d _ _ (d, refl, v, λ i a p. p) (add_into-Draws to _ _ d v h)

add_savings-Draws :
    (from : ℕ) (f : Flows) (d : Diagram)
    → IsDrawn d
    → Holds from d.nodes
    → Draws d (add_savings from f d)
unfolding add_savings
add_savings-Draws from f d v h =
    let (i, e, p, w, k, m) = add_from-DrawsAt from (λ a. lit "#10b981") (savings_node f) d v h in
    if-Draws (pos_part (net_savings f) == 0) d (some d)
      (add_from from (λ a. lit "#10b981") (savings_node f) d >>= λ placed. some placed.1)
      (d, refl, v, λ i a p. p) (e, rw p refl, w, k)

empty-IsDrawn : IsDrawn empty_diagram
empty-IsDrawn = record { ids_once = tt; linked = tt }

income_diagram-Draws : (b : Bool) (f : Flows) → Draws empty_diagram (income_diagram b f)
unfolding income_diagram
income_diagram-Draws b f =
    let (v, g, h) = add_node-lem (income_hub f) empty_diagram empty-IsDrawn in
    let (to, d0) = add_node (income_hub f) empty_diagram in
    let (e1, p1, v1, g1) = add_sources-Draws to f.total_inflow f.inflow_by_source d0 v h in
    let h1 = held to d0.nodes e1.nodes g1 h in
    let (e2, p2, v2, g2) = add_deficit-Draws to f e1 v1 h1 in
    let h2 = held to e1.nodes e2.nodes g2 h1 in
    let (e3, p3, v3, g3) =
      add_categories-Draws b to f.total_outflow (sorted_categories f) e2 v2 h2 in
    let (e4, p4, v4, g4) = add_savings-Draws to f e3 v3 (held to e2.nodes e3.nodes g3 h2) in
    (e4, rw (p1, p2, p3, p4) refl, v4, λ i a r. g4 i a (g3 i a (g2 i a (g1 i a (g i a r)))))

spending_diagram-Draws : (b : Bool) (f : Flows) → Draws empty_diagram (spending_diagram b f)
unfolding spending_diagram
spending_diagram-Draws b f =
    let (v, g, h) = add_node-lem (spending_hub f) empty_diagram empty-IsDrawn in
    let (from, d0) = add_node (spending_hub f) empty_diagram in
    let (e, p, w, k) = add_categories-Draws b from f.total_outflow (sorted_categories f) d0 v h in
    (e, rw p refl, w, λ i a r. k i a (g i a r))

diagram_of-Draws : (b : Bool) (f : Flows) → Draws empty_diagram (diagram_of b f)
unfolding diagram_of
diagram_of-Draws b f =
    if-Draws _ empty_diagram _ _ (empty_diagram, refl, empty-IsDrawn, λ i a p. p)
      (if-Draws _ empty_diagram _ _ (income_diagram-Draws b f) (spending_diagram-Draws b f))

-- The diagram of any transactions can be drawn without an exception. No two of its nodes have the same
-- id, and both ends of every link are nodes of the diagram, under the ids that the link names, with an
-- amount above zero.
pub compute_sankey_data_total :
    (ts : List Transaction) (with_subs : Bool)
    → (r : SankeyCalculationResult) × (compute_sankey_data ts with_subs ≡ some r)
      × IsDrawn r.diagram
unfolding compute_sankey_data result_of
compute_sankey_data_total ts with_subs =
    let f = flows_from no_flows ts in
    let (e, p, v, g) = diagram_of-Draws with_subs f in (result_of f e, rw p refl, v)
