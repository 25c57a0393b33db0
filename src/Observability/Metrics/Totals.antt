-- ===== src/Observability/Metrics/Totals.antt =====
-- The totals that a scrape reads.
use message_management_api.Prelude.{
  ℕ, ◌+◌, ◌≡◌, refl, ap₂, String, Bool, true, false, ◌&&◌, List, [], ◌∷◌, str_eq, if◌then◌else◌,
  arith, eq_iff, Bool-cases, inl, inr,
}
use message_management_api.Observability.Metrics.{
  Labels, Sample, same_labels, is_series, increment, set_gauge, total_of,
}

same_labels_lem : (a b : Labels) → same_labels a b ≡ true → a ≡ b
same_labels_lem [] [] h = refl
same_labels_lem ((k, v) ∷ as') ((l, w) ∷ bs) h =
    ap₂ ◌∷◌
      (ap₂ (λ x y. (x, y)) ((eq_iff k l).0 (ground (arith, h)))
        ((eq_iff v w).0 (ground (arith, h))))
      (same_labels_lem as' bs (ground (arith, h)))
same_labels_lem [] ((l, w) ∷ bs) h = cc
same_labels_lem ((k, v) ∷ as') [] h = cc

same_labels_refl : (a : Labels) → same_labels a a ≡ true
same_labels_refl [] = refl
same_labels_refl ((k, v) ∷ as') = ground (arith, eq_iff k k, eq_iff v v, same_labels_refl as')

-- Whether two series are the same one.
abbrev pub same_series : String → Labels → String → Labels → Bool
same_series name labels name' labels' = str_eq name name' && same_labels labels labels'

series_of :
    (name name' : String) (labels labels' : Labels) (s : Sample)
    → is_series name labels s ≡ true
    → is_series name' labels' s ≡ same_series name labels name' labels'
series_of name name' labels labels' s h =
    let same_name = (eq_iff s.name name).0 (ground arith) in
    let same = same_labels_lem s.labels labels (ground arith) in cc

unlike :
    (name name' : String) (labels labels' : Labels) (s : Sample)
    → is_series name labels s ≡ false
    → is_series name' labels' s ≡ true
    → same_series name labels name' labels' ≡ false
unlike name name' labels labels' s h k = elim (Bool-cases (same_series name labels name' labels')) [
  | inr other ↦ other
  | inl same ↦
      let same_name = (eq_iff name name').0 (ground arith) in
      let e = same_labels_lem labels labels' (ground arith) in cc
]

-- Counting an event adds one to the total of its series, and leaves every other total alone.
pub total_of-increment :
    (name name' : String) (labels labels' : Labels) (ss : List Sample)
    → total_of name' labels' (increment name labels ss)
      ≡ total_of name' labels' ss + (if same_series name labels name' labels' then 1 else 0)
unfolding total_of increment
total_of-increment name name' labels labels' [] = omega arith
total_of-increment name name' labels labels' (s ∷ ss) =
    elim (Bool-cases (is_series name labels s)) [
      | inl hit ↦ rw hit (ground (arith, series_of name name' labels labels' s hit))
      | inr miss ↦ rw miss (
          ground (
            arith,
            unlike name name' labels labels' s miss,
            total_of-increment name name' labels labels' ss,
          ))
    ]

-- A gauge leaves the totals of every other metric alone.
pub total_of-set_gauge :
    (gauge name : String) (value : ℕ) (labels : Labels) (ss : List Sample)
    → str_eq gauge name ≡ false
    → total_of name labels (set_gauge gauge value ss) ≡ total_of name labels ss
unfolding total_of set_gauge
total_of-set_gauge gauge name value labels [] h = ground (arith, h)
total_of-set_gauge gauge name value labels (s ∷ ss) h = elim (Bool-cases (is_series gauge [] s)) [
  | inl hit ↦
      let same = (eq_iff s.name gauge).0 (ground (arith, hit)) in rw (hit, same) (ground (arith, h))
  | inr miss ↦ rw miss (ground (arith, total_of-set_gauge gauge name value labels ss h))
]
