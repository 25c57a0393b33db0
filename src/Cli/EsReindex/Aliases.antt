-- ===== src/Cli/EsReindex/Aliases.antt =====
-- What the alias swap of a reindexing does.
use message_management_api.Prelude.{
  ◌≡◌, refl, ap, ◌∙◌, String, Bool, true, false, not, ◌&&◌, List, [], ◌∷◌, ◌++◌, filter, str_eq,
  contains_text, eq_iff, eq_refl, if◌then◌else◌, arith,
}
use message_management_api.Search.EsMessageSearch.{messages_read_alias, messages_write_alias}
use message_management_api.Search.IndexManager.{AliasAction, remove, add}
use message_management_api.Cli.EsReindex.{remove_all, build_alias_swap_actions}

-- Which index each alias points at.
abbrev pub AliasTable : Type 0
AliasTable = List (String × String)

abbrev is_entry : String → String → String × String → Bool
is_entry alias index e = str_eq e.0 alias && str_eq e.1 index

-- `POST _aliases`, as Elasticsearch documents it: the actions are done together, in their order.
unfoldable pub apply_actions : List AliasAction → AliasTable → AliasTable
apply_actions [] t = t
apply_actions (remove alias index ∷ actions) t =
    apply_actions actions (filter (λ e. not (is_entry alias index e)) t)
apply_actions (add alias index write ∷ actions) t = apply_actions actions ((alias, index) ∷ t)

-- The indices of an alias.
unfoldable pub indices_of : String → AliasTable → List String
indices_of alias [] = []
indices_of alias (e ∷ t) = if str_eq e.0 alias then e.1 ∷ indices_of alias t else indices_of alias t

apply_actions-append :
    (xs ys : List AliasAction) (t : AliasTable)
    → apply_actions (xs ++ ys) t ≡ apply_actions ys (apply_actions xs t)
unfolding apply_actions
apply_actions-append [] ys t = refl
apply_actions-append (remove a i ∷ xs) ys t = apply_actions-append xs ys _
apply_actions-append (add a i b ∷ xs) ys t = apply_actions-append xs ys _

-- One removal drops the index from the alias, and leaves every other alias alone.
indices_of-filter_self :
    (alias index : String) (t : AliasTable)
    → indices_of alias (filter (λ e. not (is_entry alias index e)) t)
      ≡ filter (λ i. not (str_eq i index)) (indices_of alias t)
unfolding indices_of
indices_of-filter_self alias index [] = refl
indices_of-filter_self alias index (e ∷ t) = ground (arith, indices_of-filter_self alias index t)

indices_of-filter_ne :
    (alias other index : String) (t : AliasTable)
    → str_eq alias other ≡ false
    → indices_of alias (filter (λ e. not (is_entry other index e)) t) ≡ indices_of alias t
unfolding indices_of
indices_of-filter_ne alias other index [] h = refl
indices_of-filter_ne alias other index (e ∷ t) h = ground (
  arith,
  indices_of-filter_ne alias other index t h,
  eq_iff e.0 alias,
  eq_iff e.0 other,
  eq_iff alias other,
)

-- Removing names one after another from a list.
abbrev pub without : List String → List String → List String
without [] l = l
without (i ∷ is) l = without is (filter (λ j. not (str_eq j i)) l)

indices_of-remove_all :
    (alias : String) (is : List String) (t : AliasTable)
    → indices_of alias (apply_actions (remove_all alias is) t) ≡ without is (indices_of alias t)
unfolding apply_actions
indices_of-remove_all alias [] t = refl
indices_of-remove_all alias (i ∷ is) t =
    indices_of-remove_all alias is _ ∙ ap (without is) (indices_of-filter_self alias i t)

indices_of-remove_all_ne :
    (alias other : String) (is : List String) (t : AliasTable)
    → str_eq alias other ≡ false
    → indices_of alias (apply_actions (remove_all other is) t) ≡ indices_of alias t
unfolding apply_actions
indices_of-remove_all_ne alias other [] t h = refl
indices_of-remove_all_ne alias other (i ∷ is) t h =
    indices_of-remove_all_ne alias other is _ h ∙ indices_of-filter_ne alias other i t h

pub without_nil : (is : List String) → without is [] ≡ []
without_nil [] = refl
without_nil (i ∷ is) = without_nil is

without_first :
    (i : String) (l : List String)
    → filter (λ j. not (str_eq j i)) (i ∷ l) ≡ filter (λ j. not (str_eq j i)) l
without_first i l = ground (arith, eq_refl i)

filter_comm :
    (p q : String → Bool) (l : List String) → filter p (filter q l) ≡ filter q (filter p l)
filter_comm p q [] = refl
filter_comm p q (x ∷ l) = ground (arith, filter_comm p q l)

without-filter :
    (is : List String) (p : String → Bool) (l : List String)
    → without is (filter p l) ≡ filter p (without is l)
without-filter [] p l = refl
without-filter (i ∷ is) p l =
    ap (without is) (filter_comm (λ j. not (str_eq j i)) p l)
    ∙ without-filter is p (filter (λ j. not (str_eq j i)) l)

-- A list without all of its own names is empty.
without_self : (is : List String) → without is is ≡ []
without_self [] = refl
without_self (i ∷ is) =
    ap (without is) (without_first i is)
    ∙ without-filter is (λ j. not (str_eq j i)) is
    ∙ ap (filter (λ j. not (str_eq j i))) (without_self is)

contains-filter_ne :
    (x i : String) (l : List String)
    → contains_text x (filter (λ j. not (str_eq j i)) l) ≡ true
    → (contains_text x l ≡ true) × (str_eq x i ≡ false)
contains-filter_ne x i [] h = cc
contains-filter_ne x i (y ∷ l) h =
    ground (arith, contains-filter_ne x i l, eq_iff y i, eq_iff x i, eq_iff x y)

-- Removing at least its own names empties a list.
pub without_covering :
    (is l : List String)
    → ((x : String) → contains_text x l ≡ true → contains_text x is ≡ true)
    → without is l ≡ []
without_covering [] [] h = refl
without_covering [] (x ∷ l) h = cc (h x (ground (arith, eq_refl x)))
without_covering (i ∷ is) l h = without_covering is (filter (λ j. not (str_eq j i)) l) rest
  where
    rest :
        (x : String)
        → contains_text x (filter (λ j. not (str_eq j i)) l) ≡ true
        → contains_text x is ≡ true
    rest x k =
        let kept = contains-filter_ne x i l k in
        let covered = h x kept.0 in ground (arith, kept.1, covered)

swapped_table :
    (reads writes : List String) (t : AliasTable) (target : String)
    → apply_actions (build_alias_swap_actions reads writes target) t
      ≡ (messages_write_alias, target)
        ∷ (messages_read_alias, target)
        ∷ apply_actions
            (remove_all messages_write_alias writes)
            (apply_actions (remove_all messages_read_alias reads) t)
unfolding build_alias_swap_actions apply_actions
swapped_table reads writes t target =
    apply_actions-append (remove_all messages_read_alias reads) _ t
    ∙ apply_actions-append (remove_all messages_write_alias writes)
        (add messages_read_alias target false ∷ add messages_write_alias target true ∷ []) _

-- The swap, where the names that it removes are all those that the two aliases point at.
pub swapped-PointsTo :
    (reads writes : List String) (t : AliasTable) (target : String)
    → without reads (indices_of messages_read_alias t) ≡ []
    → without writes (indices_of messages_write_alias t) ≡ []
    → let swapped = apply_actions (build_alias_swap_actions reads writes target) t in
      (indices_of messages_read_alias swapped ≡ target ∷ [])
      × (indices_of messages_write_alias swapped ≡ target ∷ [])
unfolding indices_of
swapped-PointsTo reads writes t target hr hw = rw (swapped_table reads writes t target) (
  ap (◌∷◌ target) (
      indices_of-remove_all_ne messages_read_alias messages_write_alias writes cleared refl
      ∙ indices_of-remove_all messages_read_alias reads t
      ∙ hr),
  ap (◌∷◌ target) (
      indices_of-remove_all messages_write_alias writes cleared
      ∙ ap (without writes)
          (indices_of-remove_all_ne messages_write_alias messages_read_alias reads t refl)
      ∙ hw),
)
  where
    cleared : AliasTable
    cleared = apply_actions (remove_all messages_read_alias reads) t

-- After the alias actions of a reindexing, on a table in which the two aliases pointed at the
-- indices that the service read, each of them points at the target index and at nothing else, and
-- every other alias points where it did.
pub build_alias_swap_actions-swaps :
    (t : AliasTable) (target other : String)
    → str_eq other messages_read_alias ≡ false
    → str_eq other messages_write_alias ≡ false
    → let swapped =
        apply_actions
          (build_alias_swap_actions
            (indices_of messages_read_alias t)
            (indices_of messages_write_alias t)
            target)
          t in
      (indices_of messages_read_alias swapped ≡ target ∷ [])
      × (indices_of messages_write_alias swapped ≡ target ∷ [])
      × (indices_of other swapped ≡ indices_of other t)
unfolding indices_of
build_alias_swap_actions-swaps t target other hr hw =
    let reads = indices_of messages_read_alias t in
    let writes = indices_of messages_write_alias t in
    let cleared = apply_actions (remove_all messages_read_alias reads) t in
    let both = swapped-PointsTo reads writes t target (without_self reads) (without_self writes) in
    (
      both.0,
      both.1,
      rw (swapped_table reads writes t target) (
          ground (
            arith,
            eq_iff messages_read_alias other,
            eq_iff messages_write_alias other,
            eq_iff other messages_read_alias,
            eq_iff other messages_write_alias,
            indices_of-remove_all_ne other messages_write_alias writes cleared hw,
            indices_of-remove_all_ne other messages_read_alias reads t hr,
          )),
    )
