-- ===== src/Market/Scoring/Regimes.antt =====
-- src/market_state_engine/scoring/regime.py: the regime from the active events, or else from the
-- means of trend and risk.
use Prim.Native.String.{◌++◌ as ◌<>◌}
use tread_agent.Base.{
  String, Bool, true, false, not, ◌&&◌, Option, none, some, List, [], ◌∷◌, map, select, count_if,
  length, if◌then◌else◌,
}
use tread_agent.Base.Order.{str_le}
use tread_agent.Rules.Models.{RegimeState, risk_on, risk_off, transition, event_driven}
use tread_agent.Rules.Activations.{EventFeature}
use tread_agent.Market.Numbers.{
  Numbers, larger, smaller, zero_point, sum_from, sum, over_length, clamped, unit,
}
use tread_agent.Market.Models.{RegimeSensitivity, low, computed, Driver}
use tread_agent.Market.Guardrails.{has_changed, same_bool}

pub record AssetRegimeInput (V : Type 0) : Type 0 where
  pub symbol : String
  pub trend : V
  pub risk : V
  pub regime_sensitivity : RegimeSensitivity

-- core/dtos.RegimeResult
pub record RegimeResult (V : Type 0) : Type 0 where
  pub state : RegimeState
  pub previous_state : Option RegimeState
  pub changed_this_run : Bool
  pub confidence : V
  pub computed_drivers : List (Driver V)

abbrev pub is_low : RegimeSensitivity → Bool
is_low low = true
is_low _ = false

-- What the branches of `classify` compute.
pub record Reading (V : Type 0) : Type 0 where
  pub state : RegimeState
  pub margin : V
  pub drivers : List (Driver V)

module _ {V : Type 0} (n : Numbers V) where
  -- `_EVENT_MATERIAL_SURPRISE` and `_EVENT_WINDOW_HOURS`
  abbrev pub is_material : EventFeature V → Bool
  is_material e =
      n.is_le (n.absolute e.proximity_hours) (n.decimal 480 1)
      && n.is_le (n.decimal 5 2) (n.absolute e.surprise)

  -- `key(a) < key(b)` for the key `(abs(surprise), event_id)`
  abbrev pub surprises_less : EventFeature V → EventFeature V → Bool
  surprises_less a b =
      if n.is_eq (n.absolute a.surprise) (n.absolute b.surprise)
      then not (str_le b.event_id a.event_id)
      else n.is_lt (n.absolute a.surprise) (n.absolute b.surprise)

  -- The loop of `max`.
  unfoldable pub strongest : EventFeature V → List (EventFeature V) → EventFeature V
  strongest w [] = w
  strongest w (e ∷ es) = strongest (if surprises_less w e then e else w) es

  abbrev pub strongest_of : List (EventFeature V) → Option (EventFeature V)
  strongest_of [] = none
  strongest_of (e ∷ es) = some (strongest e es)

  unfoldable pub active_material_event : List (EventFeature V) → Option (EventFeature V)
  unfolding strongest
  active_material_event events = strongest_of (select is_material events)

  -- `_mean`
  unfoldable pub mean : List V → V
  unfolding sum_from
  mean [] = n.decimal 0 1
  mean (x ∷ xs) = over_length n (sum n (x ∷ xs)) (x ∷ xs)

  -- The thresholds `RISK_HI`, `RISK_LO` and `TREND_BAND`.
  abbrev pub risk_hi : V
  risk_hi = n.decimal 6 1

  abbrev pub risk_lo : V
  risk_lo = n.decimal 45 2

  abbrev pub trend_band : V
  trend_band = n.decimal 2 1

  unfoldable pub state_from_aggregates : V → V → RegimeState
  state_from_aggregates avg_trend avg_risk =
      if n.is_le risk_hi avg_risk && n.is_le avg_trend (n.negated trend_band)
      then risk_off
      else (if n.is_le avg_risk risk_lo && n.is_le trend_band avg_trend
          then risk_on
          else transition)

  unfoldable pub boundary_margin : V → V → RegimeState → V
  unfolding clamped
  boundary_margin avg_trend avg_risk risk_off = unit n (
      n.over (smaller n (n.minus avg_risk risk_hi) (n.minus (n.negated trend_band) avg_trend))
        (n.decimal 4 1))
  boundary_margin avg_trend avg_risk risk_on =
      unit n (
        n.over (smaller n (n.minus risk_lo avg_risk) (n.minus avg_trend trend_band))
          (n.decimal 4 1))
  boundary_margin avg_trend avg_risk _ =
      let to_off =
        smaller n (n.absolute (n.minus avg_risk risk_hi))
          (n.absolute (n.plus avg_trend trend_band)) in
      let to_on =
        smaller n (n.absolute (n.minus avg_risk risk_lo))
          (n.absolute (n.minus avg_trend trend_band)) in
      unit n (n.over (smaller n to_off to_on) (n.decimal 3 1))

  abbrev pub trends : List (AssetRegimeInput V) → List V
  trends assets = map (λ (a : AssetRegimeInput V). a.trend) assets

  abbrev pub risks : List (AssetRegimeInput V) → List V
  risks assets = map (λ (a : AssetRegimeInput V). a.risk) assets

  abbrev pub is_rising : V → Bool
  is_rising x = n.is_le (zero_point n) x

  -- `1.0 if avg >= 0 else -1.0`
  abbrev pub reference : V → V
  reference avg = if is_rising avg then n.decimal 10 1 else n.negated (n.decimal 10 1)

  unfoldable pub trend_concordance : List (AssetRegimeInput V) → V
  unfolding mean
  trend_concordance [] = n.decimal 5 1
  trend_concordance (a ∷ as') =
      let ref = reference (mean (trends (a ∷ as'))) in
      n.over
        (n.decimal
          (count_if (λ (b : AssetRegimeInput V). same_bool (is_rising b.trend) (is_rising ref))
            (a ∷ as'))
          0)
        (n.decimal (length (a ∷ as')) 0)

  abbrev pub event_margin : EventFeature V → V
  event_margin e = unit n (
      n.over (n.minus (n.absolute e.surprise) (n.decimal 5 2))
        (larger n (n.decimal 5 2) (n.decimal 1 9)))

  unfoldable pub read_event : EventFeature V → Reading V
  unfolding clamped
  read_event e = record {
    state = event_driven;
    margin = event_margin e;
    drivers =
        record {
          name = "event_" <> e.event_type;
          weight = computed (
              n.round4
                (unit n (n.plus (n.decimal 4 1) (n.times (n.decimal 4 1) (event_margin e)))));
          detail = some ("surprise=" <> n.text_of e.surprise);
        }
        ∷ [];
  }

  unfoldable pub read_means : V → V → Reading V
  unfolding state_from_aggregates boundary_margin
  read_means avg_trend avg_risk =
      let state = state_from_aggregates avg_trend avg_risk in
      record {
        state = state;
        margin = boundary_margin avg_trend avg_risk state;
        drivers =
            record {
              name = "avg_trend";
              weight =
                  computed (n.round4 (n.over (n.plus avg_trend (n.decimal 1 0)) (n.decimal 2 0)));
              detail = none;
            }
            ∷ record { name = "avg_risk"; weight = computed (n.round4 avg_risk); detail = none }
            ∷ [];
      }

  abbrev pub reading : List (AssetRegimeInput V) → Option (EventFeature V) → Reading V
  reading sensitive (some e) = read_event e
  reading sensitive none = read_means (mean (trends sensitive)) (mean (risks sensitive))

  abbrev pub classified : Option RegimeState → V → Reading V → RegimeResult V
  classified previous_state concord r = record {
    state = r.state;
    previous_state = previous_state;
    changed_this_run = has_changed r.state previous_state;
    confidence =
        n.round4
          (unit n (n.plus (n.times (n.decimal 5 1) r.margin) (n.times (n.decimal 5 1) concord)));
    computed_drivers = r.drivers;
  }

  abbrev pub sensitive_of : List (AssetRegimeInput V) → List (AssetRegimeInput V)
  sensitive_of assets =
      select (λ (a : AssetRegimeInput V). not (is_low a.regime_sensitivity)) assets

  unfoldable pub classify :
      List (AssetRegimeInput V) → List (EventFeature V) → Option RegimeState → RegimeResult V
  unfolding active_material_event read_event read_means mean trend_concordance clamped
  classify assets events previous_state =
      classified previous_state (trend_concordance (sensitive_of assets))
        (reading (sensitive_of assets) (active_material_event events))
