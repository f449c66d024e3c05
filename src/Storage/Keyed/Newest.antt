-- ===== src/Storage/Keyed/Newest.antt =====
-- Which snapshot the store of src/market_state_engine/persistence/last_good.py gives back.
use tread_agent.Base.{
  some-injective, ◌≡◌, ◌≢◌, refl, sym, ap, ◌∙◌, inl, inr, String, true, Option, none, some, List,
  [], ◌∷◌, All, All-map, Some, str_eq, eq_iff, arith, Bool-cases, String-cases, if◌then◌else◌,
}
use tread_agent.Base.Order.{str_le, str_le_total, str_le_trans}
use tread_agent.Storage.Keyed.{
  RawSnapshot, LastGoodRow, row_of, is_before, put_snapshot, upsert_for, upsert_snapshot,
  after_session, record_snapshot, find_snapshot, restored_option, get_snapshot,
}

module _ {Json : Type 0} where
  -- The table after calls of `record`, the latest call first.
  unfoldable pub record_all : List (RawSnapshot Json) → List (LastGoodRow Json)
  unfolding record_snapshot
  record_all [] = []
  record_all (s ∷ earlier) = record_snapshot s (record_all earlier)

  -- Nothing if no call was for the symbol; else a snapshot of a call for it, that no other such call
  -- was later than.
  pub data IsNewest (symbol : String) (calls : List (RawSnapshot Json))
      : Option (LastGoodRow Json) → Type 0 where
    nothing :
        All (λ (x : RawSnapshot Json). x.symbol ≢ some symbol) calls → IsNewest symbol calls none
    newest :
        (s : RawSnapshot Json)
        → Some (λ (x : RawSnapshot Json). (x ≡ s) × (x.symbol ≡ some symbol)) calls
        → All
            (λ (x : RawSnapshot Json). x.symbol ≡ some symbol → str_le x.as_of s.as_of ≡ true)
            calls
        → IsNewest symbol calls (some (row_of symbol s))

  merged : String → RawSnapshot Json → Option (LastGoodRow Json) → LastGoodRow Json
  merged symbol s none = row_of symbol s
  merged symbol s (some r) = if is_before s.as_of r.as_of then r else row_of symbol s

  find-put :
      (k j : String) (s : RawSnapshot Json) (rows : List (LastGoodRow Json))
      → find_snapshot k (put_snapshot j s rows)
        ≡ (if str_eq j k then some (merged j s (find_snapshot j rows)) else find_snapshot k rows)
  unfolding find_snapshot put_snapshot merged
  find-put k j s [] = refl
  find-put k j s (r ∷ rows) =
      ground (arith, eq_iff r.symbol j, eq_iff j k, eq_iff r.symbol k, find-put k j s rows)

  -- A call for another symbol changes nothing.
  other_symbol :
      (symbol : String) (s : RawSnapshot Json) (calls : List (RawSnapshot Json))
      (o : Option (LastGoodRow Json))
      → s.symbol ≢ some symbol
      → IsNewest symbol calls o
      → IsNewest symbol (s ∷ calls) o
  other_symbol symbol s calls none h (nothing a) = nothing (h, a)
  other_symbol symbol s calls (some _) h (newest t m a) = newest t (inr m) (λ e. absurd (h e), a)

  merged-IsNewest :
      (symbol : String) (s : RawSnapshot Json) (calls : List (RawSnapshot Json))
      (o : Option (LastGoodRow Json))
      → s.symbol ≡ some symbol
      → IsNewest symbol calls o
      → IsNewest symbol (s ∷ calls) (some (merged symbol s o))
  unfolding merged
  merged-IsNewest symbol s calls none h (nothing a) = newest s (inl (refl, h)) (
    λ e. ground (arith, str_le_total s.as_of s.as_of),
    All-map _ _ (λ x n e. absurd (n e)) calls a,
  )
  merged-IsNewest symbol s calls (some _) h (newest t m a) =
      elim (Bool-cases (str_le t.as_of s.as_of)) [
        | inl e ↦ rw e (
            newest s (inl (refl, h)) (
              λ _. ground (arith, str_le_total s.as_of s.as_of),
              All-map _ _ (λ x k i. str_le_trans x.as_of t.as_of s.as_of (k i) e) calls a,
            ))
        | inr e ↦ rw e (newest t (inr m) (λ _. ground (arith, str_le_total s.as_of t.as_of, e), a))
      ]

  put-IsNewest :
      (symbol : String) (s : RawSnapshot Json) (j : String) (calls : List (RawSnapshot Json))
      (rows : List (LastGoodRow Json))
      → s.symbol ≡ some j
      → IsNewest symbol calls (find_snapshot symbol rows)
      → IsNewest symbol (s ∷ calls) (find_snapshot symbol (put_snapshot j s rows))
  put-IsNewest symbol s j calls rows h n = elim (String-cases j symbol) [
    | inl (e, p) ↦
        rw (find-put symbol j s rows, e, p)
          (merged-IsNewest symbol s calls (find_snapshot symbol rows) (h ∙ ap some p) n)
    | inr (e, p) ↦
        rw (find-put symbol j s rows, e)
          (other_symbol symbol s calls (find_snapshot symbol rows)
            (λ q. p (some-injective (sym h ∙ q))) n)
  ]

  session-IsNewest :
      (symbol : String) (s : RawSnapshot Json) (o : Option String) (calls : List (RawSnapshot Json))
      (rows : List (LastGoodRow Json))
      → s.symbol ≡ o
      → IsNewest symbol calls (find_snapshot symbol rows)
      → IsNewest symbol
          (s ∷ calls)
          (find_snapshot symbol (after_session (upsert_for s o rows) rows))
  session-IsNewest symbol s none calls rows h n =
      other_symbol symbol s calls (find_snapshot symbol rows) (λ q. cc) n
  session-IsNewest symbol s (some j) calls rows h n = put-IsNewest symbol s j calls rows h n

  record_all-found :
      (symbol : String) (calls : List (RawSnapshot Json))
      → IsNewest symbol calls (find_snapshot symbol (record_all calls))
  unfolding record_all record_snapshot upsert_snapshot find_snapshot
  record_all-found symbol [] = nothing tt
  record_all-found symbol (s ∷ calls) =
      session-IsNewest symbol s s.symbol calls (record_all calls) refl
        (record_all-found symbol calls)

  -- What is given back, by the calls of `record`.
  pub data GivesNewest (symbol : String) (calls : List (RawSnapshot Json))
      : Option (RawSnapshot Json) → Type 0 where
    gives_nothing :
        All (λ (x : RawSnapshot Json). x.symbol ≢ some symbol) calls → GivesNewest symbol calls none
    gives :
        (s : RawSnapshot Json)
        → Some (λ (x : RawSnapshot Json). (x ≡ s) × (x.symbol ≡ some symbol)) calls
        → All
            (λ (x : RawSnapshot Json). x.symbol ≡ some symbol → str_le x.as_of s.as_of ≡ true)
            calls
        → GivesNewest symbol calls (
            some
              (record s { symbol = some symbol; is_stale = true; stale_reason = some "last_good" }))

  restored-Newest :
      (symbol : String) (calls : List (RawSnapshot Json)) (o : Option (LastGoodRow Json))
      → IsNewest symbol calls o
      → GivesNewest symbol calls (restored_option o)
  restored-Newest symbol calls none (nothing a) = gives_nothing a
  restored-Newest symbol calls (some _) (newest s m a) = gives s m a

  -- After any calls of `record`, those without a symbol included, `get` gives nothing back if none was
  -- for the symbol; else the snapshot of one of them, than which no other is later by `as_of`, with
  -- its contents as they were and marked as stale.
  pub get_snapshot-GivesNewest :
      (symbol : String) (calls : List (RawSnapshot Json))
      → GivesNewest symbol calls (get_snapshot symbol (record_all calls))
  unfolding get_snapshot
  get_snapshot-GivesNewest symbol calls =
      restored-Newest symbol calls (find_snapshot symbol (record_all calls))
        (record_all-found symbol calls)
