-- ===== src/Service/Tests.antt =====
-- The program on concrete variables and signals, and the theorems at them.
use Prim.Native.Char.{code}
use Prim.Native.String.{String}
use market_data_processor.Prelude.{
  ℕ, ◌≡◌, ◌≢◌, ◌↔◌, refl, arith, true, Option, none, some, List, [], ◌∷◌, All,
}
use market_data_processor.Double.Fixed.{Fixed, fixed_double}
use market_data_processor.Feed.{FeedConfig, default_config}
use market_data_processor.Service.{
  signal_engine, signal_db_writer, feeds, start_order, stop_order, getline, split_loop,
  split_symbols, signal_handler, handle_all, wait_loop, accept, configure, service_config, main,
}
use market_data_processor.Service.Symbols.{IsSymbol, join, split_symbols_total, split_symbols-join}
use market_data_processor.Service.Order.{
  before, order_lem, AfterConfigure, configure-AfterConfigure,
}

abbrev codes : String → List ℕ
codes String.[] = []
codes (String.◌∷◌ c s) = code c ∷ codes s

-- Empty items are left out.
splits : split_symbols (codes "AAPL,,MSFT,") ≡ some (codes "AAPL" ∷ codes "MSFT" ∷ [])
unfolding split_symbols split_loop getline
splits = refl

split_symbols_total_example :
    (symbols : List (List ℕ)) × (split_symbols (codes "AAPL,,MSFT,") ≡ some symbols)
    × All IsSymbol symbols
split_symbols_total_example = split_symbols_total (codes "AAPL,,MSFT,")

split_symbols-join_example :
    split_symbols (join (codes "AAPL" ∷ codes "BTC" ∷ [])) ≡ some (codes "AAPL" ∷ codes "BTC" ∷ [])
split_symbols-join_example =
    split_symbols-join (codes "AAPL" ∷ codes "BTC" ∷ [])
      ((λ e. absurd (cc), omega arith), ((λ e. absurd (cc), omega arith), tt))

order_lem_example :
    (before signal_db_writer signal_engine start_order ≡ true)
    × ((before signal_engine signal_db_writer stop_order ≡ true) ↔ (signal_engine ≢ signal_engine))
order_lem_example = order_lem signal_engine signal_db_writer (unfold feeds in refl)

abbrev config : Option (FeedConfig Fixed)
config = configure (some (codes "dbname=x")) (some (codes "AAPL,,MSFT,"))

configure-AfterConfigure_example :
    AfterConfigure Fixed (some (codes "dbname=x")) (some (codes "AAPL,,MSFT,")) config
configure-AfterConfigure_example =
    configure-AfterConfigure Fixed (some (codes "dbname=x")) (some (codes "AAPL,,MSFT,")) refl

-- SIGHUP is 1.
abbrev signals : List (List ℕ)
signals = (1 ∷ []) ∷ [] ∷ (15 ∷ []) ∷ []

waits : main config ((1 ∷ []) ∷ []) ≡ none
unfolding main wait_loop handle_all signal_handler configure accept service_config split_symbols
    split_loop getline default_config
waits = refl
