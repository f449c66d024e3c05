-- ===== src/Market/Features/Technical.antt =====
-- src/market_state_engine/features/indicators.py: the technical indicators of a series, oldest first;
-- none stands for a `ValueError`.
use tread_agent.Base.{
  ℕ, ◌+◌, ◌-◌, not, ◌&&◌, Option, none, some, List, [], ◌∷◌, length, drop, take, reverse, ltb, ◌==◌,
  if◌then◌else◌,
}
use tread_agent.Market.Numbers.{Numbers, larger, zero_point, sum_from, sum}
use tread_agent.Market.Guardrails.{same_bool}
use tread_agent.Market.Models.{
  MacdState, bullish_cross, bearish_cross, macd_neutral, macd_bullish, macd_bearish, EmaState,
  above_diverging, above_converging, below_diverging, below_converging, crossing,
}

module _ {V : Type 0} (n : Numbers V) where
  -- An integer among floats.
  abbrev pub whole : ℕ → V
  whole k = n.decimal k 0

  -- `xs[i] - xs[i - 1]`
  unfoldable pub deltas_from : V → List V → List V
  deltas_from x [] = []
  deltas_from x (y ∷ ys) = n.minus y x ∷ deltas_from y ys

  abbrev pub deltas : List V → List V
  deltas [] = []
  deltas (x ∷ xs) = deltas_from x xs

  -- The sums of the gains and of the losses, of the first deltas.
  unfoldable pub sum_moves : V × V → List V → V × V
  sum_moves acc [] = acc
  sum_moves (gains, losses) (d ∷ ds) =
      sum_moves
        (if n.is_le (zero_point n) d then (n.plus gains d, losses) else (gains, n.minus losses d))
        ds

  -- `(avg * (period - 1) + x) / period`
  abbrev pub smoothed : ℕ → V → V → V
  smoothed period avg x = n.over (n.plus (n.times avg (whole (period - 1))) x) (whole period)

  unfoldable pub smooth_moves : ℕ → V × V → List V → V × V
  smooth_moves period acc [] = acc
  smooth_moves period (gain, loss) (d ∷ ds) =
      smooth_moves period
        (
          smoothed period gain (larger n d (n.decimal 0 1)),
          smoothed period loss (larger n (n.negated d) (n.decimal 0 1)),
        )
        ds

  abbrev pub index_of : V × V → V
  index_of (avg_gain, avg_loss) =
      if n.is_eq avg_loss (n.decimal 0 1)
      then n.decimal 1000 1
      else n.minus (n.decimal 1000 1)
          (n.over (n.decimal 1000 1) (n.plus (n.decimal 10 1) (n.over avg_gain avg_loss)))

  abbrev pub mean_moves : ℕ → V × V → V × V
  mean_moves period (gains, losses) = (n.over gains (whole period), n.over losses (whole period))

  unfoldable pub rsi_14 : List V → Option V
  unfolding deltas_from sum_moves smooth_moves
  rsi_14 closes =
      if ltb (length closes) 15
      then none
      else some (
          index_of (
            smooth_moves 14
              (mean_moves 14 (sum_moves (n.decimal 0 1, n.decimal 0 1) (take 14 (deltas closes))))
              (drop 14 (deltas closes))))

  -- `v * k + last * (1.0 - k)`
  abbrev pub ema_step : V → V → V → V
  ema_step k last v = n.plus (n.times v k) (n.times last (n.minus (n.decimal 10 1) k))

  unfoldable pub ema_from : V → V → List V → List V
  ema_from k last [] = []
  ema_from k last (v ∷ vs) = ema_step k last v ∷ ema_from k (ema_step k last v) vs

  -- `_ema_series`
  unfoldable pub ema_series : List V → ℕ → List V
  unfolding ema_from sum_from
  ema_series values period =
      let k = n.over (n.decimal 20 1) (whole (period + 1)) in
      let seed = n.over (sum n (take period values)) (whole period) in
      seed ∷ ema_from k seed (drop period values)

  -- The differences of two series with the same end, newest first, as far as both go.
  unfoldable pub differences : List V → List V → List V
  differences [] ys = []
  differences (x ∷ xs) [] = []
  differences (x ∷ xs) (y ∷ ys) = n.minus x y ∷ differences xs ys

  -- `curr_diff` and `prev_diff`, of the newest two.
  abbrev pub newest_two : List V → Option (V × V)
  newest_two [] = none
  newest_two (x ∷ []) = none
  newest_two (x ∷ y ∷ zs) = some (x, y)

  abbrev pub macd_of : Option (V × V) → Option MacdState
  macd_of none = none
  macd_of (some (curr, prev)) =
      if n.is_le prev (zero_point n) && n.is_lt (zero_point n) curr
      then some bullish_cross
      else (if n.is_le (zero_point n) prev && n.is_lt curr (zero_point n)
          then some bearish_cross
          else (if n.is_lt (zero_point n) curr
              then some macd_bullish
              else (if n.is_lt curr (zero_point n) then some macd_bearish else some macd_neutral)))

  unfoldable pub macd_state : List V → Option MacdState
  unfolding ema_series differences
  macd_state closes =
      if ltb (length closes) 35
      then none
      else (let newest_line =
            differences (reverse (ema_series closes 12)) (reverse (ema_series closes 26)) in
          macd_of
            (newest_two (differences newest_line (reverse (ema_series (reverse newest_line) 9)))))

  abbrev pub gap_state : Option (V × V) → Option EmaState
  gap_state none = none
  gap_state (some (now, prev)) =
      let above = n.is_lt (zero_point n) now in
      let widening = n.is_le (n.absolute prev) (n.absolute now) in
      if not (same_bool (n.is_lt (zero_point n) prev) above)
      then some crossing
      else (if above
          then some (if widening then above_diverging else above_converging)
          else some (if widening then below_diverging else below_converging))

  unfoldable pub ema_20_50 : List V → Option EmaState
  unfolding ema_series differences
  ema_20_50 closes =
      if ltb (length closes) 51
      then none
      else gap_state (
          newest_two
            (differences (reverse (ema_series closes 20)) (reverse (ema_series closes 50))))

  abbrev pub true_range : V → V → V → V
  true_range close high low =
      larger n (larger n (n.minus high low) (n.absolute (n.minus high close)))
        (n.absolute (n.minus low close))

  -- From the previous close and what follows it in the three series.
  unfoldable pub true_ranges : V → List V → List V → List V → List V
  true_ranges close (h ∷ hs) (l ∷ ls) (c ∷ cs) = true_range close h l ∷ true_ranges c hs ls cs
  true_ranges close _ _ _ = []

  abbrev pub ranges : List V → List V → List V → List V
  ranges (h ∷ hs) (l ∷ ls) (c ∷ cs) = true_ranges c hs ls cs
  ranges _ _ _ = []

  unfoldable pub smooth_all : ℕ → V → List V → V
  smooth_all period avg [] = avg
  smooth_all period avg (x ∷ xs) = smooth_all period (smoothed period avg x) xs

  -- `(atr / last_close) * 100.0`, of the newest close
  abbrev pub percent_of_last : V → List V → Option V
  percent_of_last atr [] = none
  percent_of_last atr (c ∷ cs) =
      if n.is_eq c (whole 0) then none else some (n.times (n.over atr c) (n.decimal 1000 1))

  unfoldable pub atr_pct : List V → List V → List V → Option V
  unfolding true_ranges smooth_all sum_from
  atr_pct highs lows closes =
      if not (length highs == length lows && length lows == length closes)
      then none
      else (if ltb (length closes) 15
          then none
          else (let trs = ranges highs lows closes in
              percent_of_last
                (smooth_all 14 (n.over (sum n (take 14 trs)) (whole 14)) (drop 14 trs))
                (reverse closes)))

  -- The newest volume over the mean of the 20 before it.
  abbrev pub ratio_to_mean : List V → Option V
  ratio_to_mean [] = none
  ratio_to_mean (v ∷ older) =
      let avg = n.over (sum n (reverse (take 20 older))) (whole 20) in
      if n.is_eq avg (whole 0) then none else some (n.over v avg)

  unfoldable pub volume_ratio_20d : List V → Option V
  unfolding sum_from
  volume_ratio_20d volumes =
      if ltb (length volumes) 21 then none else ratio_to_mean (reverse volumes)
