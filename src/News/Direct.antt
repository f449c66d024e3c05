-- ===== src/News/Direct.antt =====
-- The direct patterns of src/market_state_engine/news/relevance.py. A word of a pattern that has
-- finitely many forms is given by its forms.
use tread_agent.Base.{List, [], ◌∷◌}
use tread_agent.Base.Dict.{Dict}
use tread_agent.News.Patterns.{one_of, spaces, maybe_spaces, Pattern}

abbrev pub btc_patterns : List Pattern
btc_patterns =
    (one_of ("bitcoin" ∷ []) ∷ [])
    ∷ (one_of ("btc" ∷ []) ∷ [])
    ∷ (one_of ("satoshis" ∷ "satoshi" ∷ []) ∷ [])
    ∷ []

abbrev pub eth_patterns : List Pattern
eth_patterns =
    (one_of ("ethereum" ∷ []) ∷ [])
    ∷ (one_of ("eth" ∷ []) ∷ [])
    ∷ (one_of ("ether" ∷ []) ∷ [])
    ∷ (one_of ("vitalik" ∷ []) ∷ [])
    ∷ []

abbrev pub gold_patterns : List Pattern
gold_patterns =
    (one_of ("gold" ∷ []) ∷ spaces ∷ one_of ("prices" ∷ "price" ∷ []) ∷ [])
    ∷ (one_of ("spot" ∷ []) ∷ spaces ∷ one_of ("gold" ∷ []) ∷ [])
    ∷ (one_of ("gold" ∷ []) ∷ spaces ∷ one_of ("futures" ∷ "future" ∷ []) ∷ [])
    ∷ (one_of ("gold" ∷ []) ∷ spaces ∷ one_of ("market" ∷ []) ∷ [])
    ∷ (one_of ("xauusd" ∷ "xau" ∷ []) ∷ [])
    ∷ (one_of ("bullion" ∷ []) ∷ [])
    ∷ (one_of ("gold" ∷ [])
        ∷ spaces
        ∷ one_of (
            "rises" ∷ "rise" ∷ "rose" ∷ "falls" ∷ "fall" ∷ "fell" ∷ "gains" ∷ "gain" ∷ "gained"
            ∷ "drops" ∷ "drop" ∷ "dropped" ∷ "rally" ∷ "rallies" ∷ "rallied" ∷ "slips" ∷ "slip"
            ∷ "slid" ∷ "surges" ∷ "surge" ∷ "jumped" ∷ "climbs" ∷ "climb" ∷ "declines" ∷ "decline"
            ∷ [])
        ∷ [])
    ∷ (one_of ("gold's" ∷ "gold" ∷ []) ∷ spaces ∷ one_of ("safe-haven" ∷ "safe haven" ∷ []) ∷ [])
    ∷ (one_of ("gold" ∷ []) ∷ spaces ∷ one_of ("demand" ∷ "supply" ∷ []) ∷ [])
    ∷ (one_of ("precious" ∷ [])
        ∷ spaces
        ∷ one_of ("metals" ∷ "metal" ∷ [])
        ∷ spaces
        ∷ one_of ("market" ∷ "prices" ∷ "price" ∷ "demand" ∷ "supply" ∷ [])
        ∷ [])
    ∷ (one_of ("demand" ∷ "supply" ∷ "prices" ∷ "price" ∷ [])
        ∷ spaces
        ∷ one_of ("for" ∷ "of" ∷ [])
        ∷ spaces
        ∷ one_of ("precious" ∷ [])
        ∷ spaces
        ∷ one_of ("metals" ∷ "metal" ∷ [])
        ∷ [])
    ∷ []

abbrev pub wti_patterns : List Pattern
wti_patterns =
    (one_of ("wti" ∷ []) ∷ [])
    ∷ (one_of ("west" ∷ [])
        ∷ spaces
        ∷ one_of ("texas" ∷ [])
        ∷ spaces
        ∷ one_of ("intermediate" ∷ [])
        ∷ [])
    ∷ (one_of ("crude" ∷ []) ∷ [])
    ∷ (one_of ("oil" ∷ []) ∷ spaces ∷ one_of ("prices" ∷ "price" ∷ []) ∷ [])
    ∷ (one_of ("brent" ∷ []) ∷ [])
    ∷ (one_of ("opec+" ∷ "opec" ∷ []) ∷ [])
    ∷ (one_of ("petroleum" ∷ []) ∷ [])
    ∷ []

abbrev pub usd_irr_patterns : List Pattern
usd_irr_patterns =
    (one_of ("iranian" ∷ []) ∷ spaces ∷ one_of ("rial" ∷ []) ∷ [])
    ∷ (one_of ("iran's" ∷ "iran" ∷ []) ∷ spaces ∷ one_of ("rial" ∷ []) ∷ [])
    ∷ (one_of ("rial" ∷ []) ∷ [])
    ∷ (one_of ("toman" ∷ []) ∷ [])
    ∷ (one_of ("usd" ∷ [])
        ∷ maybe_spaces
        ∷ one_of ("/" ∷ "_" ∷ "-" ∷ "" ∷ [])
        ∷ maybe_spaces
        ∷ one_of ("irr" ∷ [])
        ∷ [])
    ∷ (one_of ("dollar" ∷ [])
        ∷ spaces
        ∷ one_of ("rate" ∷ "price" ∷ [])
        ∷ spaces
        ∷ one_of ("in" ∷ [])
        ∷ spaces
        ∷ one_of ("iran" ∷ [])
        ∷ [])
    ∷ []

abbrev pub total_mcap_patterns : List Pattern
total_mcap_patterns =
    (one_of ("crypto" ∷ []) ∷ spaces ∷ one_of ("market" ∷ []) ∷ [])
    ∷ (one_of ("cryptocurrency" ∷ []) ∷ spaces ∷ one_of ("market" ∷ []) ∷ [])
    ∷ (one_of ("crypto" ∷ []) ∷ [])
    ∷ (one_of ("cryptocurrency" ∷ "cryptocurrencies" ∷ []) ∷ [])
    ∷ (one_of ("digital" ∷ []) ∷ spaces ∷ one_of ("assets" ∷ "asset" ∷ []) ∷ [])
    ∷ (one_of ("crypto" ∷ [])
        ∷ spaces
        ∷ one_of ("market" ∷ [])
        ∷ spaces
        ∷ one_of ("capitalization" ∷ "cap" ∷ [])
        ∷ [])
    ∷ (one_of ("total" ∷ [])
        ∷ spaces
        ∷ one_of ("crypto" ∷ [])
        ∷ spaces
        ∷ one_of ("market" ∷ [])
        ∷ spaces
        ∷ one_of ("cap" ∷ [])
        ∷ [])
    ∷ (one_of ("altcoins" ∷ "altcoin" ∷ []) ∷ [])
    ∷ (one_of ("stablecoins" ∷ "stablecoin" ∷ []) ∷ [])
    ∷ (one_of ("xrp" ∷ []) ∷ [])
    ∷ (one_of ("solana" ∷ []) ∷ [])
    ∷ []

-- `_DIRECT_ASSET_PATTERNS`
abbrev pub direct_asset_patterns : Dict (List Pattern)
direct_asset_patterns =
    ("BTC", btc_patterns)
    ∷ ("ETH", eth_patterns)
    ∷ ("GOLD", gold_patterns)
    ∷ ("WTI", wti_patterns)
    ∷ ("USD_IRR", usd_irr_patterns)
    ∷ ("TOTAL_MCAP", total_mcap_patterns)
    ∷ []
