-- ===== src/News/Topics.antt =====
-- The macro topics of src/market_state_engine/news/relevance.py.
use tread_agent.Base.{List, [], ◌∷◌}
use tread_agent.Base.Dict.{Dict}
use tread_agent.Market.Numbers.{Numbers}
use tread_agent.News.Patterns.{one_of, spaces, maybe_spaces, repeated, optional, Pattern}

pub record MacroTopic (V : Type 0) : Type 0 where
  pub patterns : List Pattern
  pub asset_relevance : Dict V

abbrev pub fed_monetary_policy_patterns : List Pattern
fed_monetary_policy_patterns =
    (one_of ("federal" ∷ []) ∷ spaces ∷ one_of ("reserve" ∷ []) ∷ [])
    ∷ (one_of ("the" ∷ []) ∷ spaces ∷ one_of ("fed" ∷ []) ∷ [])
    ∷ (one_of ("fed" ∷ []) ∷ [])
    ∷ (one_of ("fomc" ∷ []) ∷ [])
    ∷ (one_of ("powell" ∷ []) ∷ [])
    ∷ (one_of ("jerome" ∷ []) ∷ spaces ∷ one_of ("powell" ∷ []) ∷ [])
    ∷ (one_of ("fed" ∷ [])
        ∷ spaces
        ∷ one_of ("funds" ∷ "fund" ∷ [])
        ∷ spaces
        ∷ one_of ("rate" ∷ [])
        ∷ [])
    ∷ (one_of ("interest" ∷ []) ∷ spaces ∷ one_of ("rates" ∷ "rate" ∷ []) ∷ [])
    ∷ (one_of ("rate" ∷ []) ∷ spaces ∷ one_of ("cuts" ∷ "cut" ∷ []) ∷ [])
    ∷ (one_of ("rate" ∷ []) ∷ spaces ∷ one_of ("hikes" ∷ "hike" ∷ []) ∷ [])
    ∷ (one_of ("rate" ∷ []) ∷ spaces ∷ one_of ("decision" ∷ []) ∷ [])
    ∷ (one_of ("monetary" ∷ []) ∷ spaces ∷ one_of ("policy" ∷ []) ∷ [])
    ∷ []

abbrev pub us_inflation_patterns : List Pattern
us_inflation_patterns =
    (one_of ("cpi" ∷ []) ∷ [])
    ∷ (one_of ("consumer" ∷ [])
        ∷ spaces
        ∷ one_of ("price" ∷ [])
        ∷ spaces
        ∷ one_of ("index" ∷ [])
        ∷ [])
    ∷ (one_of ("core" ∷ []) ∷ spaces ∷ one_of ("cpi" ∷ []) ∷ [])
    ∷ (one_of ("inflation" ∷ []) ∷ [])
    ∷ (one_of ("disinflation" ∷ []) ∷ [])
    ∷ (one_of ("pce" ∷ []) ∷ [])
    ∷ (one_of ("personal" ∷ [])
        ∷ spaces
        ∷ one_of ("consumption" ∷ [])
        ∷ spaces
        ∷ one_of ("expenditures" ∷ [])
        ∷ [])
    ∷ []

abbrev pub us_labor_market_patterns : List Pattern
us_labor_market_patterns =
    (one_of ("nonfarm" ∷ []) ∷ spaces ∷ one_of ("payrolls" ∷ "payroll" ∷ []) ∷ [])
    ∷ (one_of ("nfp" ∷ []) ∷ [])
    ∷ (one_of ("unemployment" ∷ []) ∷ [])
    ∷ (one_of ("jobless" ∷ []) ∷ spaces ∷ one_of ("claims" ∷ "claim" ∷ []) ∷ [])
    ∷ (one_of ("payrolls" ∷ "payroll" ∷ []) ∷ [])
    ∷ (one_of ("labor" ∷ []) ∷ spaces ∷ one_of ("market" ∷ []) ∷ [])
    ∷ (one_of ("labour" ∷ []) ∷ spaces ∷ one_of ("market" ∷ []) ∷ [])
    ∷ []

abbrev pub us_dollar_patterns : List Pattern
us_dollar_patterns =
    (one_of ("dollar" ∷ []) ∷ spaces ∷ one_of ("index" ∷ []) ∷ [])
    ∷ (one_of ("us" ∷ []) ∷ spaces ∷ one_of ("dollar" ∷ []) ∷ spaces ∷ one_of ("index" ∷ []) ∷ [])
    ∷ (one_of ("dxy" ∷ []) ∷ [])
    ∷ (one_of ("usd" ∷ []) ∷ spaces ∷ one_of ("strength" ∷ "weakness" ∷ []) ∷ [])
    ∷ (one_of ("stronger" ∷ []) ∷ spaces ∷ one_of ("usd" ∷ []) ∷ [])
    ∷ (one_of ("weaker" ∷ []) ∷ spaces ∷ one_of ("usd" ∷ []) ∷ [])
    ∷ (one_of ("dollar" ∷ []) ∷ spaces ∷ one_of ("strength" ∷ []) ∷ [])
    ∷ (one_of ("dollar" ∷ []) ∷ spaces ∷ one_of ("weakness" ∷ []) ∷ [])
    ∷ (one_of ("stronger" ∷ []) ∷ spaces ∷ one_of ("dollar" ∷ []) ∷ [])
    ∷ (one_of ("weaker" ∷ []) ∷ spaces ∷ one_of ("dollar" ∷ []) ∷ [])
    ∷ (one_of ("dollar" ∷ [])
        ∷ spaces
        ∷ one_of (
            "strengthens" ∷ "strengthen" ∷ "strengthened" ∷ "weakens" ∷ "weaken" ∷ "weakened"
            ∷ "rises" ∷ "rise" ∷ "rose" ∷ "falls" ∷ "fall" ∷ "fell" ∷ "gains" ∷ "gain" ∷ "gained"
            ∷ "slides" ∷ "slide" ∷ "slid" ∷ [])
        ∷ [])
    ∷ (one_of ("dollar" ∷ []) ∷ spaces ∷ one_of ("rally" ∷ "rallies" ∷ "rallied" ∷ []) ∷ [])
    ∷ (one_of ("dollar" ∷ []) ∷ spaces ∷ one_of ("sell-off" ∷ "sell off" ∷ "selloff" ∷ []) ∷ [])
    ∷ (one_of ("dollar" ∷ [])
        ∷ spaces
        ∷ one_of ("hits" ∷ "hit" ∷ [])
        ∷ spaces
        ∷ repeated ("a" ∷ "an" ∷ "new" ∷ "three-month" ∷ [])
        ∷ one_of ("high" ∷ "low" ∷ [])
        ∷ [])
    ∷ []

abbrev pub us_yields_patterns : List Pattern
us_yields_patterns =
    (one_of ("treasury" ∷ []) ∷ spaces ∷ one_of ("yields" ∷ "yield" ∷ []) ∷ [])
    ∷ (one_of ("us" ∷ []) ∷ spaces ∷ one_of ("yields" ∷ "yield" ∷ []) ∷ [])
    ∷ (one_of ("bond" ∷ []) ∷ spaces ∷ one_of ("yields" ∷ "yield" ∷ []) ∷ [])
    ∷ (one_of ("real" ∷ []) ∷ spaces ∷ one_of ("yields" ∷ "yield" ∷ []) ∷ [])
    ∷ (one_of ("10-year" ∷ "10 year" ∷ []) ∷ spaces ∷ one_of ("yield" ∷ []) ∷ [])
    ∷ (one_of ("two-year" ∷ "two year" ∷ []) ∷ spaces ∷ one_of ("yield" ∷ []) ∷ [])
    ∷ (one_of ("2-year" ∷ "2 year" ∷ []) ∷ spaces ∷ one_of ("yield" ∷ []) ∷ [])
    ∷ []

abbrev pub oil_supply_patterns : List Pattern
oil_supply_patterns =
    (one_of ("opec+" ∷ "opec" ∷ []) ∷ [])
    ∷ (one_of ("oil" ∷ []) ∷ spaces ∷ one_of ("production" ∷ []) ∷ [])
    ∷ (one_of ("production" ∷ []) ∷ spaces ∷ one_of ("cuts" ∷ "cut" ∷ []) ∷ [])
    ∷ (one_of ("production" ∷ []) ∷ spaces ∷ one_of ("increases" ∷ "increase" ∷ []) ∷ [])
    ∷ (one_of ("oil" ∷ []) ∷ spaces ∷ one_of ("supply" ∷ []) ∷ [])
    ∷ (one_of ("crude" ∷ []) ∷ spaces ∷ one_of ("supply" ∷ []) ∷ [])
    ∷ []

abbrev pub geopolitical_risk_patterns : List Pattern
geopolitical_risk_patterns =
    (one_of ("geopolitical" ∷ []) ∷ spaces ∷ one_of ("risk" ∷ []) ∷ [])
    ∷ (one_of ("geopolitical" ∷ []) ∷ spaces ∷ one_of ("tensions" ∷ "tension" ∷ []) ∷ [])
    ∷ (one_of ("military" ∷ []) ∷ spaces ∷ one_of ("conflict" ∷ []) ∷ [])
    ∷ (one_of ("armed" ∷ []) ∷ spaces ∷ one_of ("conflict" ∷ []) ∷ [])
    ∷ (one_of ("invasion" ∷ []) ∷ [])
    ∷ (one_of ("missile" ∷ []) ∷ spaces ∷ one_of ("attacks" ∷ "attack" ∷ []) ∷ [])
    ∷ (one_of ("air" ∷ []) ∷ maybe_spaces ∷ one_of ("strikes" ∷ "strike" ∷ []) ∷ [])
    ∷ (one_of ("bombings" ∷ "bombing" ∷ []) ∷ [])
    ∷ (one_of ("ceasefire" ∷ []) ∷ [])
    ∷ (one_of ("military" ∷ []) ∷ spaces ∷ one_of ("escalation" ∷ []) ∷ [])
    ∷ (one_of ("military" ∷ []) ∷ spaces ∷ one_of ("attacks" ∷ "attack" ∷ []) ∷ [])
    ∷ (one_of ("sanctions" ∷ "sanction" ∷ []) ∷ [])
    ∷ (one_of ("strait" ∷ []) ∷ spaces ∷ one_of ("of" ∷ []) ∷ spaces ∷ one_of ("hormuz" ∷ []) ∷ [])
    ∷ (one_of ("hormuz" ∷ []) ∷ [])
    ∷ (one_of ("shipping" ∷ []) ∷ spaces ∷ one_of ("disruptions" ∷ "disruption" ∷ []) ∷ [])
    ∷ (one_of ("shipping" ∷ []) ∷ spaces ∷ optional ("is" ∷ []) ∷ one_of ("disrupted" ∷ []) ∷ [])
    ∷ (one_of ("iran-us" ∷ "iran-israel" ∷ "iran us" ∷ "iran israel" ∷ [])
        ∷ spaces
        ∷ one_of ("conflict" ∷ [])
        ∷ [])
    ∷ []

-- `_MACRO_TOPICS`
abbrev pub macro_topics : {V : Type 0} → Numbers V → List (MacroTopic V)
macro_topics n =
    record {
      patterns = fed_monetary_policy_patterns;
      asset_relevance =
          ("BTC", n.decimal 80 2)
          ∷ ("ETH", n.decimal 80 2)
          ∷ ("GOLD", n.decimal 95 2)
          ∷ ("WTI", n.decimal 60 2)
          ∷ ("USD_IRR", n.decimal 75 2)
          ∷ ("TOTAL_MCAP", n.decimal 90 2)
          ∷ [];
    }
    ∷ record {
      patterns = us_inflation_patterns;
      asset_relevance =
          ("BTC", n.decimal 75 2)
          ∷ ("ETH", n.decimal 75 2)
          ∷ ("GOLD", n.decimal 90 2)
          ∷ ("WTI", n.decimal 55 2)
          ∷ ("USD_IRR", n.decimal 70 2)
          ∷ ("TOTAL_MCAP", n.decimal 85 2)
          ∷ [];
    }
    ∷ record {
      patterns = us_labor_market_patterns;
      asset_relevance =
          ("BTC", n.decimal 65 2)
          ∷ ("ETH", n.decimal 65 2)
          ∷ ("GOLD", n.decimal 80 2)
          ∷ ("WTI", n.decimal 45 2)
          ∷ ("USD_IRR", n.decimal 60 2)
          ∷ ("TOTAL_MCAP", n.decimal 75 2)
          ∷ [];
    }
    ∷ record {
      patterns = us_dollar_patterns;
      asset_relevance =
          ("BTC", n.decimal 65 2)
          ∷ ("ETH", n.decimal 65 2)
          ∷ ("GOLD", n.decimal 90 2)
          ∷ ("WTI", n.decimal 70 2)
          ∷ ("TOTAL_MCAP", n.decimal 70 2)
          ∷ [];
    }
    ∷ record {
      patterns = us_yields_patterns;
      asset_relevance =
          ("BTC", n.decimal 65 2)
          ∷ ("ETH", n.decimal 65 2)
          ∷ ("GOLD", n.decimal 95 2)
          ∷ ("WTI", n.decimal 45 2)
          ∷ ("USD_IRR", n.decimal 65 2)
          ∷ ("TOTAL_MCAP", n.decimal 70 2)
          ∷ [];
    }
    ∷ record {
      patterns = oil_supply_patterns;
      asset_relevance =
          ("BTC", n.decimal 20 2)
          ∷ ("ETH", n.decimal 20 2)
          ∷ ("GOLD", n.decimal 35 2)
          ∷ ("WTI", n.decimal 95 2)
          ∷ ("USD_IRR", n.decimal 45 2)
          ∷ ("TOTAL_MCAP", n.decimal 25 2)
          ∷ [];
    }
    ∷ record {
      patterns = geopolitical_risk_patterns;
      asset_relevance =
          ("BTC", n.decimal 45 2)
          ∷ ("ETH", n.decimal 40 2)
          ∷ ("GOLD", n.decimal 90 2)
          ∷ ("WTI", n.decimal 90 2)
          ∷ ("USD_IRR", n.decimal 90 2)
          ∷ ("TOTAL_MCAP", n.decimal 45 2)
          ∷ [];
    }
    ∷ []
