-- ===== src/Registry/Sources.antt =====
-- Which data sources are registered: node ids stay distinct, and removal undoes addition.
use mapget.Base.{
  ℕ, ◌≡◌, ◌≢◌, ◌↔◌, ◌⊎◌, Bool, true, false, List, [], ◌∷◌, ◌++◌, none, some, refl, arith, ◌==◌, not,
  filter, any, Bool-cases, Option-cases, inl, inr,
}
use mapget.Base.Text.{Text, text_eq, text_eq_iff}
use mapget.Source.{SourceInfo}
use mapget.Registry.{
  Registry, assign, find_source, erase_source, has_node, is_empty, enter, add_data_source,
  remove_data_source, Headers, find_pattern, any_header, is_data_source_authorized,
}

-- No two sources have the same node id, and none is unnamed.
abbrev pub NodesDistinct : List (ℕ × SourceInfo) → Type 0
NodesDistinct [] = Unit
NodesDistinct ((ds, info) ∷ es) =
    (info.node_id ≢ []) × ((has_node info.node_id es ≡ false) × NodesDistinct es)

has_node-assign :
    (ds : ℕ) (info : SourceInfo) (es : List (ℕ × SourceInfo)) (node : Text)
    → has_node node es ≡ false
    → text_eq info.node_id node ≡ false
    → has_node node (assign ds info es) ≡ false
unfolding assign
has_node-assign ds info [] node h k = ground arith
has_node-assign ds info (e ∷ es) node h k = ground (arith, has_node-assign ds info es node)

text_eq_sym : (s t : Text) → text_eq s t ≡ text_eq t s
text_eq_sym s t = ground (arith, text_eq_iff s t, text_eq_iff t s)

assign-NodesDistinct :
    (ds : ℕ) (info : SourceInfo) (es : List (ℕ × SourceInfo))
    → info.node_id ≢ []
    → has_node info.node_id es ≡ false
    → NodesDistinct es
    → NodesDistinct (assign ds info es)
unfolding assign
assign-NodesDistinct ds info [] ne h d = ground arith
assign-NodesDistinct ds info ((k, i) ∷ es) ne h d = ground (
  arith,
  assign-NodesDistinct ds info es ne,
  has_node-assign ds info es i.node_id,
  text_eq_sym info.node_id i.node_id,
)

has_node-erase :
    (ds : ℕ) (es : List (ℕ × SourceInfo)) (node : Text)
    → has_node node es ≡ false
    → has_node node (erase_source ds es) ≡ false
has_node-erase ds [] node h = refl
has_node-erase ds (e ∷ es) node h = ground (arith, has_node-erase ds es node)

erase-NodesDistinct :
    (ds : ℕ) (es : List (ℕ × SourceInfo)) → NodesDistinct es → NodesDistinct (erase_source ds es)
erase-NodesDistinct ds [] d = tt
erase-NodesDistinct ds ((k, i) ∷ es) d =
    ground (arith, erase-NodesDistinct ds es d.1.1, has_node-erase ds es i.node_id d.1.0)

name_given : (t : Text) → is_empty t ≡ false → t ≢ []
name_given [] h = cc
name_given (c ∷ cs) h = λ e. cc

no_name : (t : Text) → is_empty t ≡ true → t ≡ []
no_name [] h = refl
no_name (c ∷ cs) h = cc

-- Adding and removing data sources keeps the node ids distinct and named, whatever the data source.
add_remove-NodesDistinct :
    (ds : ℕ) (info : SourceInfo) (g : Registry)
    → NodesDistinct g.data_source_info
    → ((h : Registry) → add_data_source ds info g ≡ some h → NodesDistinct h.data_source_info)
      × NodesDistinct (remove_data_source ds g).data_source_info
unfolding add_data_source enter remove_data_source
add_remove-NodesDistinct ds info g d = (added, erase-NodesDistinct ds g.data_source_info d)
  where
    added : (h : Registry) → add_data_source ds info g ≡ some h → NodesDistinct h.data_source_info
    added h e =
        ground (arith, name_given info.node_id, assign-NodesDistinct ds info g.data_source_info)

-- The exception is raised exactly for an unnamed data source and for one whose node id a registered
-- source has.
pub add_data_source-eq-none :
    (ds : ℕ) (info : SourceInfo) (g : Registry)
    → (add_data_source ds info g ≡ none)
      ↔ ((info.node_id ≡ []) ⊎ (has_node info.node_id g.data_source_info ≡ true))
unfolding add_data_source
add_data_source-eq-none ds info g = ground (arith, name_given info.node_id, no_name info.node_id)

erase-absent {ℓ} :
    {A : Type ℓ} (k : ℕ) (es : List (ℕ × A)) → find_source k es ≡ none → erase_source k es ≡ es
unfolding find_source
erase-absent k [] h = refl
erase-absent k ((j, w) ∷ es) h = ground (arith, erase-absent k es)

erase-assign {ℓ} :
    {A : Type ℓ} (k : ℕ) (v : A) (es : List (ℕ × A))
    → find_source k es ≡ none
    → erase_source k (assign k v es) ≡ es
unfolding assign find_source
erase-assign k v [] h = ground arith
erase-assign k v ((j, w) ∷ es) h = ground (arith, erase-assign k v es, erase-absent k es)

remove-absent :
    (n : ℕ) (ns : List ℕ) → any (λ m. m == n) ns ≡ false → filter (λ m. not (m == n)) ns ≡ ns
remove-absent n [] h = refl
remove-absent n (m ∷ ns) h = ground (arith, remove-absent n ns)

remove-added :
    (n : ℕ) (ns : List ℕ)
    → any (λ m. m == n) ns ≡ false
    → filter (λ m. not (m == n)) (ns ++ (n ∷ [])) ≡ ns
remove-added n [] h = ground arith
remove-added n (m ∷ ns) h = ground (arith, remove-added n ns)

-- Where the data source has no trace in the registry, adding and then removing it leaves the
-- registry as it was.
remove-add_data_source :
    (ds : ℕ) (info : SourceInfo) (g h : Registry)
    → find_source ds g.data_source_info ≡ none
    → find_source ds g.data_source_workers ≡ none
    → any (λ n. n == ds) g.add_on_data_sources ≡ false
    → add_data_source ds info g ≡ some h
    → remove_data_source ds h ≡ g
unfolding add_data_source enter remove_data_source
remove-add_data_source ds info g h no_info no_workers no_add_on e = ground (
  arith,
  erase-assign ds info g.data_source_info no_info,
  erase-assign ds info.max_parallel_jobs g.data_source_workers no_workers,
  erase-absent ds g.data_source_workers no_workers,
  remove-absent ds g.add_on_data_sources no_add_on,
  remove-added ds g.add_on_data_sources no_add_on,
)

module _ {Regex : Type 0} (regex_match : Text → Regex → Bool) where
  -- Some header has a pattern, which its value matches.
  abbrev pub Permitted : List (Text × Regex) → Headers → Type 0
  Permitted patterns [] = ⊥
  Permitted patterns ((k, v) ∷ hs) =
      ((re : Regex) × (find_pattern regex_match patterns k ≡ some re) × (regex_match v re ≡ true))
      ⊎ Permitted patterns hs

  any_header-Permitted :
      (patterns : List (Text × Regex)) (hs : Headers)
      → (any_header regex_match patterns hs ≡ true) ↔ Permitted patterns hs
  unfolding any_header
  any_header-Permitted patterns [] = ground arith
  any_header-Permitted patterns ((k, v) ∷ hs) =
      let (there, back) = any_header-Permitted patterns hs in
      elim (Option-cases (find_pattern regex_match patterns k)) [
        | inl e ↦
            rw (e, any_header)
              ((λ h. inr (there h)), (λ p. elim p [ inl (re, f, _) ↦ cc | inr q ↦ back q ]))
        | inr (re, e) ↦ elim (Bool-cases (regex_match v re)) [
          | inl m ↦ rw (e, any_header) (rw m ((λ h. inl (re, refl, m)), (λ p. refl)))
          | inr m ↦
              rw (e, any_header)
                (rw m
                  ((λ h. inr (there h)), (λ p. elim p [ inl (re', f, m') ↦ cc | inr q ↦ back q ])))
        ]
      ]

  -- A data source without patterns is open to everyone, and one with patterns to the clients of
  -- which some header has a pattern that its value matches.
  is_data_source_authorized-Permitted :
      (patterns : List (Text × Regex)) (hs : Headers)
      → (is_data_source_authorized regex_match patterns hs ≡ true)
        ↔ ((patterns ≡ []) ⊎ Permitted patterns hs)
  unfolding is_data_source_authorized
  is_data_source_authorized-Permitted [] hs = ground arith
  is_data_source_authorized-Permitted (p ∷ ps) hs =
      let (there, back) = any_header-Permitted (p ∷ ps) hs in
      ((λ e. inr (there e)), (λ h. elim h [ inl e ↦ cc | inr q ↦ back q ]))
