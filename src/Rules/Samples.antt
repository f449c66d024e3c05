-- ===== src/Rules/Samples.antt =====
-- A rule on hot CPI figures and its effects on gold.
use tread_agent.Base.{
  ℕ, ◌≡◌, refl, ◌⊎◌, true, false, Option, none, some, List, [], ◌∷◌, ltb, leb, ◌==◌, All,
}
use tread_agent.Base.Dict.{Dict}
use tread_agent.Pipeline.Store.{us_cpi}
use tread_agent.Rules.Models.{bullish, bearish, major, risk_on, risk_off, Effect, Rule, valid}
use tread_agent.Rules.Condition.{ge, Condition, is_word, is_letter, is_digit, parse_condition}
use tread_agent.Rules.Condition.Text.{IsReadable, print_condition}
use tread_agent.Rules.Condition.Printed.{parse_condition-print}
use tread_agent.Rules.Matcher.{Floats, resolved_effects}
use tread_agent.Rules.Conflict.{Candidate, ConflictFlag, resolve_asset_effects}
use tread_agent.Rules.Conflict.Strongest.{Decides, resolve_asset_effects-Decides}
use tread_agent.Rules.Loader.{validate_rule, load_rules}
use tread_agent.Rules.Loader.Gate.{Inside, Cautious, resolved_effects-Cautious}
use tread_agent.Rules.Engine.{match_rules}
use tread_agent.Rules.Activations.{EventFeature, Activation, Arithmetic}
use tread_agent.Rules.Engine.Sources.{Backed, match_rules-Backed}

abbrev gold_down : Effect
gold_down = record {
  asset = "GOLD";
  direction = bearish;
  strength = major;
  horizon = "1d";
  uncertain = none;
}

abbrev hot_cpi : Rule ℕ
hot_cpi = record {
  id = "cpi-gold";
  version = 2;
  status = "active";
  on_trigger = record {
    event_type = some us_cpi;
    condition = "surprise_us_cpi >= 0.1";
    condition_vars = "surprise_us_cpi" ∷ [];
  };
  effects = gold_down ∷ [];
  regime_guard = some (record { applies_in = risk_on ∷ []; otherwise = "flag_uncertain" });
  half_life_hours = 12;
  economic_rationale = "rates";
  reviewed_by = "senior_trader";
}

abbrev hot : Condition
hot = record {
  name = "surprise_us_cpi";
  op = ge;
  literal = record { negative = false; whole = "0"; fraction = some "1" };
}

hot-IsReadable : IsReadable hot
unfolding is_letter is_word is_digit
hot-IsReadable = record {
  name = (
    refl,
    (
      refl,
      (
        refl,
        (
          refl,
          (
            refl,
            (
              refl,
              (refl, (refl, (refl, (refl, (refl, (refl, (refl, (refl, (refl, (refl, tt)))))))))),
            ),
          ),
        ),
      ),
    ),
  );
  whole = (refl, (refl, tt));
  fraction = (refl, (refl, tt));
}

parse_condition-print_example : parse_condition (print_condition hot) ≡ some hot
parse_condition-print_example = parse_condition-print hot hot-IsReadable

abbrev opposing : List Candidate
opposing = (record gold_down { direction = bullish }, "b") ∷ []

resolve_asset_effects-Decides_example :
    Decides "GOLD"
      ((gold_down, "a") ∷ opposing)
      (resolve_asset_effects "GOLD" ((gold_down, "a") ∷ opposing))
resolve_asset_effects-Decides_example =
    resolve_asset_effects-Decides "GOLD" (gold_down, "a") opposing

hot_cpi_valid : validate_rule hot_cpi ≡ none
unfolding validate_rule
hot_cpi_valid = refl

outside_regime :
    resolved_effects hot_cpi (some risk_off)
    ≡ valid (record gold_down { uncertain = some true } ∷ [])
unfolding resolved_effects
outside_regime = refl

resolved_effects-Cautious_example :
    Inside hot_cpi (some risk_off) ⊎ All Cautious (record gold_down { uncertain = some true } ∷ [])
resolved_effects-Cautious_example =
    resolved_effects-Cautious hot_cpi (some risk_off)
      (record gold_down { uncertain = some true } ∷ []) hot_cpi_valid refl outside_regime

one_loaded : load_rules [] (hot_cpi ∷ []) ≡ valid (hot_cpi ∷ [])
unfolding load_rules
one_loaded = refl

-- Numbers in tenths; every literal here is 0.1.
abbrev floats : Floats ℕ
floats = record { float = λ l. 1; is_lt = ltb; is_le = leb; is_eq = λ a b. a == b }

abbrev arithmetic : Arithmetic ℕ
arithmetic = record {
  zero = 0;
  one = 10;
  absolute = λ x. x;
  quotient = λ a b. 0;
  half_power = λ x. 10;
  round4 = λ x. x;
}

abbrev cpi_event : EventFeature ℕ
cpi_event = record {
  event_id = "cpi-1";
  event_type = "us_cpi";
  surprise = 2;
  surprise_sigma = none;
  proximity_hours = 0;
}

abbrev activation : Activation ℕ
activation = record {
  asset = "GOLD";
  rule_id = "cpi-gold";
  strength = major;
  horizon = "1d";
  decay_remaining = 10;
  direction = bearish;
  event_id = some "cpi-1";
  matched_condition = "surprise_us_cpi >= 0.1";
  source_rule_version = 2;
}

abbrev outcome : Option (Dict (List (Activation ℕ)) × List ConflictFlag)
outcome = some (("GOLD", activation ∷ []) ∷ [], [])

matched :
    match_rules floats arithmetic 12 (hot_cpi ∷ []) (cpi_event ∷ []) (some risk_on) ≡ valid outcome
unfolding match_rules
matched = refl

match_rules-Backed_example :
    (acts : Dict (List (Activation ℕ))) × (flags : List ConflictFlag) × (outcome
      ≡ some (acts, flags))
    × All (λ e. All (Backed floats arithmetic (λ r. validate_rule r ≡ none)) e.1) acts
match_rules-Backed_example =
    match_rules-Backed floats arithmetic (λ r. validate_rule r ≡ none) 12 (hot_cpi ∷ [])
      (cpi_event ∷ []) (some risk_on) outcome (hot_cpi_valid, tt) matched
