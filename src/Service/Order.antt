-- ===== src/Service/Order.antt =====
-- Which configuration `main` accepts, and the order in which it starts and stops the stages.
use market_data_processor.Prelude.{
  ℕ, ◌≡◌, ◌≢◌, ◌↔◌, ◌⊎◌, inl, inr, refl, arith, Bool, true, false, ◌&&◌, not, ◌||◌, Option, none,
  some, List, [], ◌∷◌, length, All, ◌==◌, if◌then◌else◌, subst, sym, length-replicate,
}
use market_data_processor.Double.{Double, zero_lit, le}
use market_data_processor.Feed.{FeedConfig, is_valid, default_config}
use market_data_processor.Service.{
  Event, Stage, reader, parser, norm, book, db_writer, signal_engine, signal_db_writer, feeds,
  start_order, stop_order, starts, stops, service_config, configure, split_symbols, accept,
}
use market_data_processor.Service.Symbols.{IsSymbol, split_symbols_total}

abbrev index : Stage → ℕ
index reader = 0
index parser = 1
index norm = 2
index book = 3
index db_writer = 4
index signal_engine = 5
index signal_db_writer = 6

abbrev pub occurs : Stage → List Stage → Bool
occurs a [] = false
occurs a (x ∷ xs) = index x == index a || occurs a xs

-- `a` comes before a later `b`.
abbrev pub before : Stage → Stage → List Stage → Bool
before a b [] = false
before a b (x ∷ xs) = (index x == index a && occurs b xs) || before a b xs

-- If a stage feeds another, then `main` starts it after the other, and stops it before the other,
-- except for the signal engine: the writer of its signals is stopped before it.
pub order_lem :
    (a b : Stage)
    → feeds a b ≡ true
    → (before b a start_order ≡ true) × ((before a b stop_order ≡ true) ↔ (a ≢ signal_engine))
unfolding feeds
order_lem reader b h = ground arith
order_lem parser b h = ground arith
order_lem norm b h = ground arith
order_lem book b h = ground arith
order_lem db_writer b h = ground arith
order_lem signal_engine b h = ground arith
order_lem signal_db_writer b h = ground arith

-- SIGINT or SIGTERM comes in some round.
abbrev interrupts : List ℕ → Bool
interrupts [] = false
interrupts (s ∷ ss) = (s == 2 || s == 15) || interrupts ss

abbrev pub interrupted : List (List ℕ) → Bool
interrupted [] = false
interrupted (ss ∷ rounds) = interrupts ss || interrupted rounds

-- What happens to one stage, in order.
abbrev pub events_of : Stage → List Event → List Event
events_of a [] = []
events_of a (starts x ∷ es) =
    if index x == index a then starts x ∷ events_of a es else events_of a es
events_of a (stops x ∷ es) = if index x == index a then stops x ∷ events_of a es else events_of a es

abbrev starts_any : List Event → Bool
starts_any [] = false
starts_any (starts x ∷ es) = true
starts_any (stops x ∷ es) = starts_any es

-- No stage starts behind a stop.
abbrev pub starts_first : List Event → Bool
starts_first [] = true
starts_first (starts x ∷ es) = starts_first es
starts_first (stops x ∷ es) = not (starts_any es)

-- Every one of the seven stages is started once and then stopped once, and none is stopped before all
-- are started.
pub record IsService (es : List Event) : Type 0 where
  pub once : (a : Stage) → events_of a es ≡ starts a ∷ stops a ∷ []
  pub apart : starts_first es ≡ true

module _ (D : Type 0) ⦃d : Double D⦄ where
  -- What `configure` has found.
  abbrev pub AfterConfigure : Option (List ℕ) → Option (List ℕ) → Option (FeedConfig D) → Type 0
  AfterConfigure conn symbols none =
      (conn ≡ none)
      ⊎ (symbols ≡ none)
      ⊎ ((s : List ℕ) × (symbols ≡ some s) × (split_symbols s ≡ some []))
  AfterConfigure conn symbols (some c) =
      (conn ≢ none)
      × (s : List ℕ) × (symbols ≡ some s)
      × (split_symbols s ≡ some c.symbols)
      × (c.symbols ≢ [])
      × All IsSymbol c.symbols
      × (is_valid c ≡ true)

  service_config-is_valid :
      (symbols : List (List ℕ))
      → le (d.lit 1 3) zero_lit ≡ false
      → is_valid (service_config {D = D} symbols) ≡ true
  unfolding service_config is_valid default_config
  service_config-is_valid symbols positive =
      ground (arith, positive, length-replicate {A = D} (length symbols) zero_lit)

  accept-AfterConfigure :
      (conn s : List ℕ) (found : List (List ℕ))
      → le (d.lit 1 3) zero_lit ≡ false
      → split_symbols s ≡ some found
      → All IsSymbol found
      → AfterConfigure (some conn) (some s) (accept (some found))
  unfolding accept service_config
  accept-AfterConfigure conn s [] positive e good = inr (inr (s, refl, e))
  accept-AfterConfigure conn s (x ∷ xs) positive e good = (
    λ missing. absurd (cc),
    s,
    refl,
    e,
    λ empty. absurd (cc),
    good,
    service_config-is_valid (x ∷ xs) positive,
  )

  -- The program refuses to start only if a variable is missing or MDP_SYMBOLS holds no symbol. If it
  -- starts, both variables are there, MDP_SYMBOLS holds a symbol, and it watches the symbols that MDP_SYMBOLS lists, and its configuration is valid, as long as
  -- the default volatility 0.001 counts as positive.
  pub configure-AfterConfigure :
      (conn symbols : Option (List ℕ))
      → le (d.lit 1 3) zero_lit ≡ false
      → AfterConfigure conn symbols (configure conn symbols)
  unfolding configure
  configure-AfterConfigure none symbols positive = inl refl
  configure-AfterConfigure (some conn) none positive = inr (inl refl)
  configure-AfterConfigure (some conn) (some s) positive =
      let (found, e, good) = split_symbols_total s in
      subst (λ o. AfterConfigure (some conn) (some s) (accept o)) (sym e)
        (accept-AfterConfigure conn s found positive e good)
