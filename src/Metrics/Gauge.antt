-- ===== src/Metrics/Gauge.antt =====
-- The gauge and the labels of src/metrics.rs, whatever the order in which compiles start and end.
mod Tests
use typst_mcp.Common.{
  ℕ, zero, suc, ◌+◌, ◌-◌, ◌*◌, ◌/◌, ◌%◌, ◌^◌, ◌≤◌, ◌<◌, ◌≡◌, refl, sym, ap, ◌∙◌, ◌≢◌, ◌↔◌, ◌⊎◌, inl,
  inr, Bool, true, false, ◌&&◌, ◌||◌, Option, none, some, List, [], ◌∷◌, ◌++◌, map, arith, ltb, leb,
  ◌==◌, if◌then◌else◌, not, Bool-cases, Option-cases, is_some, is_none, length, All, any, all, sum,
  Has, Has-All, AreDistinct, take, drop, get_or, Result, ok, err, ◌>>=◌, ok_or, map_err, bind-eq-ok,
  map_err-eq-ok, Result-cases, if-cases, unwrap_or,
}
use typst_mcp.Common.Lists.{length-append}
use typst_mcp.Common.Text.{Str, lit, str_eq, strip_prefix}
use typst_mcp.Common.Text.Laws.{str_eq_iff}
use typst_mcp.Common.Table.Sorted
use typst_mcp.Common.Table.Sorted.{SortedTable}
use typst_mcp.Render.{RenderError}
use typst_mcp.Metrics.Counting.{next64-mod}
use typst_mcp.Metrics.{
  Floats, next64, previous64, Metrics, increment_pair, fixed_labels, bounded_template_label,
  outcome_of, CompileObservation, no_metrics, start_compile, upload, auth_failure, finish_compile,
  drop_observation, finish, observe_sizes,
}

-- The metrics, and the compiles that have started and not ended.
pub record Server (F : Type 0) : Type 0 where
  pub metrics : Metrics F
  pub live : List CompileObservation

abbrev pub labels : List Str
labels = lit "ephemeral" ∷ lit "other" ∷ fixed_labels

any-Has : (label : Str) (ls : List Str) → any (λ l. str_eq label l) ls ≡ true → Has label ls
unfolding any
any-Has label [] h = absurd (cc h)
any-Has label (l ∷ ls) h = elim (Bool-cases (str_eq label l)) [
  | inl e ↦ inl ((str_eq_iff label l).0 e)
  | inr e ↦ inr (any-Has label ls (rw e at h))
]

bounded_template_label-Has : (label : Str) → Has (bounded_template_label label) labels
unfolding bounded_template_label
bounded_template_label-Has label =
    if-cases (λ (l : Str). Has l labels) (any (λ l. str_eq label l) fixed_labels) label
      (if is_some (strip_prefix (lit "tpl_") label) then lit "ephemeral" else lit "other")
      (λ e. inr (inr (any-Has label fixed_labels e)))
      (λ _.
        if-cases (λ (l : Str). Has l labels) (is_some (strip_prefix (lit "tpl_") label))
          (lit "ephemeral") (lit "other") (λ _. inl refl) (λ _. inr (inl refl)))

insert-All :
    {V : Type 0} (P : Str → Type 0) (k : Str) (v : V) (m : SortedTable V)
    → P k
    → All (λ e. P e.0) m
    → All (λ e. P e.0) (Sorted.insert k v m)
unfolding Sorted.insert
insert-All P k v [] p h = (p, tt)
insert-All P k v ((j, w) ∷ m) p h = elim (Bool-cases (str_eq j k)) [
  | inl e ↦ rw e (p, h.1)
  | inr e ↦ rw e (elim (Bool-cases (Sorted.str_lt j k)) [
    | inl f ↦ rw f (h.0, insert-All P k v m p h.1)
    | inr f ↦ rw f (p, h)
  ])
]

module _ {F : Type 0} (floats : Floats F) where
  -- One update: a compile starts, ends, or is given up, an upload, or a refused credential.
  pub data Step : Server F → Server F → Type 0 where
    starts :
        (s : Server F) (template : Str)
        → Step s (record {
          metrics = (start_compile floats s.metrics template).1;
          live = (start_compile floats s.metrics template).0 ∷ s.live;
        })
    finishes :
        (m : Metrics F) (before after : List CompileObservation) (o : CompileObservation)
        (elapsed : F) (result : Result (ℕ × ℕ) RenderError)
        → Step
            (record { metrics = m; live = before ++ o ∷ after })
            (record { metrics = finish floats m o elapsed result; live = before ++ after })
    drops :
        (m : Metrics F) (before after : List CompileObservation) (o : CompileObservation)
        → Step
            (record { metrics = m; live = before ++ o ∷ after })
            (record { metrics = drop_observation floats m o; live = before ++ after })
    uploads :
        (s : Server F) (kind : Str) → Step s (record s { metrics = upload floats s.metrics kind })
    refuses :
        (s : Server F) (reason : Str)
        → Step s (record s { metrics = auth_failure floats s.metrics reason })

  pub data Reach : Server F → Type 0 where
    fresh : Reach (record { metrics = no_metrics floats; live = [] })
    next : {s t : Server F} → Reach s → Step s t → Reach t

  -- An observation that has not ended, with one of the labels.
  abbrev IsOpen : CompileObservation → Type 0
  IsOpen o = Has o.template labels × (o.finished ≡ false)

  record Inv (s : Server F) : Type 0 where
    gauge : s.metrics.compiles_in_flight ≡ length s.live % 18446744073709551616
    known : All (λ e. Has e.0 labels) s.metrics.compiles
    open' : All IsOpen s.live

  previous64-mod : (n : ℕ) → previous64 (suc n % 18446744073709551616) ≡ n % 18446744073709551616
  previous64-mod n = omega arith

  length-between :
      (before after : List CompileObservation) (o : CompileObservation)
      → length (before ++ o ∷ after) ≡ suc (length (before ++ after))
  length-between before after o =
      omega (arith, length-append before (o ∷ after), length-append before after)

  All-between :
      (before after : List CompileObservation) (o : CompileObservation)
      → All IsOpen (before ++ o ∷ after)
      → IsOpen o × All IsOpen (before ++ after)
  All-between [] after o h = h
  All-between (b ∷ before) after o h =
      let (first, rest) = All-between before after o h.1 in (first, (h.0, rest))

  -- One compile less.
  ended-Inv :
      (m n : Metrics F) (before after : List CompileObservation) (o : CompileObservation)
      (outcome : Str)
      → n.compiles_in_flight ≡ previous64 m.compiles_in_flight
      → n.compiles ≡ increment_pair o.template outcome m.compiles
      → Inv (record { metrics = m; live = before ++ o ∷ after })
      → Inv (record { metrics = n; live = before ++ after })
  unfolding increment_pair
  ended-Inv m n before after o outcome less counted inv =
      let (first, rest) = All-between before after o inv.open' in
      record {
        gauge =
            less
            ∙ ap previous64
                (inv.gauge ∙ ap (λ l. l % 18446744073709551616) (length-between before after o))
            ∙ previous64-mod (length (before ++ after));
        known =
            rw counted (insert-All (λ l. Has l labels) o.template _ m.compiles first.0 inv.known);
        open' = rest;
      }

  Step-Inv : {s t : Server F} → Step s t → Inv s → Inv t
  unfolding start_compile upload auth_failure drop_observation finish finish_compile
  Step-Inv (starts s template) inv = record {
    gauge = ap next64 inv.gauge ∙ next64-mod (length s.live);
    known = inv.known;
    open' = ((bounded_template_label-Has template, refl), inv.open');
  }
  Step-Inv (finishes m before after o elapsed result) inv =
      ended-Inv m (finish floats m o elapsed result) before after o (outcome_of result).0 refl refl
        inv
  Step-Inv (drops m before after o) inv =
      let (first, rest) = All-between before after o inv.open' in
      ended-Inv m (drop_observation floats m o) before after o (lit "cancelled") (rw (first.1) refl)
        (rw (first.1) refl) inv
  Step-Inv (uploads s kind) inv = record { gauge = inv.gauge; known = inv.known; open' = inv.open' }
  Step-Inv (refuses s reason) inv = record {
    gauge = inv.gauge;
    known = inv.known;
    open' = inv.open';
  }

  Reach-Inv : {s : Server F} → Reach s → Inv s
  unfolding no_metrics
  Reach-Inv fresh = record { gauge = refl; known = tt; open' = tt }
  Reach-Inv (next r step) = Step-Inv step (Reach-Inv r)

  -- In every state that the server can reach, the gauge is the number of the compiles that have
  -- started and not ended, modulo 2^64, and every template label of a counter is one of eight,
  -- whatever names the callers send.
  pub Reach-IsGauged :
      (s : Server F)
      → Reach s
      → (s.metrics.compiles_in_flight ≡ length s.live % 18446744073709551616)
        × All (λ e. Has e.0 labels) s.metrics.compiles
  Reach-IsGauged s r = let inv = Reach-Inv r in (inv.gauge, inv.known)
