-- ===== src/Context/Manager/Invariant.antt =====
-- What holds of a Manager of internal/context/manager.go after any calls of its methods.
use agent_util.Common.{
  ℕ, ◌+◌, ◌≡◌, ◌≢◌, refl, Bool, true, false, not, Option, List, [], ◌∷◌, ◌++◌, map, arith, Text,
  txt, text_eq, Bool-cases, inl, inr,
}
use agent_util.Common.Floats.{Floats}
use agent_util.Llm.Message.{Message}
use agent_util.Context.Estimate.{Unicode, estimate_tokens}
use agent_util.Context.Compaction.{Entry, CompactionConfig, Compacted, ok, err, total_tokens}
use agent_util.Context.Compaction.Counted.{
  AllCounted, AllCounted-append, CountedResult, run_compaction-AllCounted,
}
use agent_util.Context.Manager.{
  EventKind, threshold_exceeded, threshold_recovered, Event, Manager, new_manager, usage_ratio,
  notify, check_threshold, set_reserved, on_threshold, replace_entries, entry_of, add, inject,
  replaced, compact,
}

total_tokens-append :
    (xs ys : List Entry) → total_tokens (xs ++ ys) ≡ total_tokens xs + total_tokens ys
unfolding total_tokens
total_tokens-append [] ys = omega arith
total_tokens-append (x ∷ xs) ys = omega (arith, total_tokens-append xs ys)

abbrev pub kind_of : Bool → EventKind
kind_of true = threshold_exceeded
kind_of false = threshold_recovered

-- the events, the newest first, take turns, of which the last made the flag what it is
abbrev pub TakesTurns : {F : Type 0} → Bool → List (Event F × List ℕ) → Type 0
TakesTurns exceeded [] = exceeded ≡ false
TakesTurns exceeded ((event, receivers) ∷ older) =
    (event.kind ≡ kind_of exceeded) × TakesTurns (not exceeded) older

module _ (fl : Floats) where
  -- the flag says whether the usage has reached the threshold
  abbrev pub IsCurrent : Manager fl.Float → Type 0
  IsCurrent m = m.exceeded ≡ fl.at_least (usage_ratio fl m) m.threshold

  check_threshold-TakesTurns :
      (m : Manager fl.Float)
      → TakesTurns m.exceeded m.notified
      → TakesTurns (check_threshold fl m).exceeded (check_threshold fl m).notified
  unfolding check_threshold notify
  check_threshold-TakesTurns m h = ground arith

  pub check_threshold-IsCurrent :
      (m : Manager fl.Float)
      → m.token_limit ≢ 0
      → m.observers ≢ []
      → IsCurrent (check_threshold fl m)
  unfolding check_threshold notify usage_ratio
  check_threshold-IsCurrent m limit watched = ground arith

  pub check_threshold_fields :
      (m : Manager fl.Float)
      → ((check_threshold fl m).entries ≡ m.entries)
        × ((check_threshold fl m).token_count ≡ m.token_count)
  unfolding check_threshold notify
  check_threshold_fields m = (ground arith, ground arith)

  module _ (u : Unicode) where
    pub record IsConsistent (m : Manager fl.Float) : Type 0 where
      pub counted : AllCounted fl u m.entries
      pub total : m.token_count ≡ total_tokens m.entries
      pub turns : TakesTurns m.exceeded m.notified

    check_threshold-IsConsistent :
        (m : Manager fl.Float) → IsConsistent m → IsConsistent (check_threshold fl m)
    check_threshold-IsConsistent m h =
        let (entries, count) = check_threshold_fields m in
        record {
          counted = rw entries h.counted;
          total = rw (entries, count) h.total;
          turns = check_threshold-TakesTurns m h.turns;
        }

    pub new_manager-IsConsistent :
        (limit : ℕ) (option : Option fl.Float) → IsConsistent (new_manager fl limit option)
    unfolding new_manager total_tokens
    new_manager-IsConsistent limit option = record { counted = tt; total = refl; turns = refl }

    replace_entries-IsConsistent :
        (es : List Entry) (m : Manager fl.Float)
        → AllCounted fl u es
        → IsConsistent m
        → IsConsistent (replace_entries fl es m)
    unfolding replace_entries
    replace_entries-IsConsistent es m k h =
        check_threshold-IsConsistent (record m { entries = es; token_count = total_tokens es })
          (record { counted = k; total = refl; turns = h.turns })

    pub set_reserved-IsConsistent :
        (n : ℕ) (m : Manager fl.Float) → IsConsistent m → IsConsistent (set_reserved fl n m)
    unfolding set_reserved
    set_reserved-IsConsistent n m h =
        check_threshold-IsConsistent (record m { reserved_tokens = n })
          (record { counted = h.counted; total = h.total; turns = h.turns })

    pub on_threshold-IsConsistent :
        (o : ℕ) (m : Manager fl.Float) → IsConsistent m → IsConsistent (on_threshold fl o m)
    unfolding on_threshold
    on_threshold-IsConsistent o m h = record {
      counted = h.counted;
      total = h.total;
      turns = h.turns;
    }

    pub add-IsConsistent :
        (msg : Message) (m : Manager fl.Float) → IsConsistent m → IsConsistent (add fl u msg m)
    unfolding add entry_of total_tokens
    add-IsConsistent msg m h =
        check_threshold-IsConsistent
          (record m {
            entries = m.entries ++ (entry_of fl u msg ∷ []);
            token_count = m.token_count + estimate_tokens fl u msg;
          })
          (record {
            counted =
                AllCounted-append fl u m.entries (entry_of fl u msg ∷ []) h.counted (refl, tt);
            total = omega (arith, h.total, total_tokens-append m.entries (entry_of fl u msg ∷ []));
            turns = h.turns;
          })

    map-entry_of : (msgs : List Message) → AllCounted fl u (map (entry_of fl u) msgs)
    unfolding entry_of
    map-entry_of [] = tt
    map-entry_of (msg ∷ msgs) = (refl, map-entry_of msgs)

    pub inject-IsConsistent :
        (msgs : List Message) (position : Text) (m : Manager fl.Float)
        → IsConsistent m
        → IsConsistent (inject fl u msgs position m)
    unfolding inject
    inject-IsConsistent [] position m h = h
    inject-IsConsistent (msg ∷ msgs) position m h =
        let new = map (entry_of fl u) (msg ∷ msgs) in
        let fresh = map-entry_of (msg ∷ msgs) in
        elim (Bool-cases (text_eq position (txt "prepend"))) [
          | inl front ↦ rw front (
              replace_entries-IsConsistent (new ++ m.entries) m
                (AllCounted-append fl u new m.entries fresh h.counted) h)
          | inr other ↦ elim (Bool-cases (text_eq position (txt "replace"))) [
            | inl all ↦ rw (other, all) (replace_entries-IsConsistent new m fresh h)
            | inr back ↦
                rw (other, back)
                  (replace_entries-IsConsistent (m.entries ++ new) m
                    (AllCounted-append fl u m.entries new h.counted fresh) h)
          ]
        ]

    module _ {W : Type 0} where
      replaced-IsConsistent :
          (m : Manager fl.Float) (r : Compacted × W)
          → CountedResult fl u r.0
          → IsConsistent m
          → IsConsistent (replaced fl u m r).1
      replaced-IsConsistent m (ok es, w) k h = replace_entries-IsConsistent es m k h
      replaced-IsConsistent m (err e, w) k h = h

      pub compact-IsConsistent :
          (cfg : CompactionConfig W fl.Float) (m : Manager fl.Float) (w : W)
          → IsConsistent m
          → IsConsistent (compact fl u cfg m w).1
      unfolding compact
      compact-IsConsistent cfg m w h = elim (Bool-cases (fl.less (usage_ratio fl m) m.threshold)) [
        | inl low ↦ rw low h
        | inr high ↦ rw high (
            replaced-IsConsistent m _
              (run_compaction-AllCounted fl u m.entries m.reserved_tokens m.token_limit cfg w
                h.counted)
              h)
      ]
