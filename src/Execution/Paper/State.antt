-- ===== src/Execution/Paper/State.antt =====
-- short_trading_bot/execution/broker/paper.py: the state of the simulated broker and its tables.
use short_trading_bot.Base.{
  ℕ, Bool, true, false, ◌&&◌, Option, none, some, List, [], ◌∷◌, ◌==◌, if◌then◌else◌,
}
use short_trading_bot.Base.Int.{ℤ, pos}
use short_trading_bot.Domain.Enums.{Market, Currency, krw, Currency-discrete, Market-discrete}
use short_trading_bot.Execution.Types.{OrderRequest, Execution}

pub record PaperConfig : Type 0 where
  pub initial_cash : ℕ
  pub slippage_bps : ℕ
  pub fee_bps : ℕ
  pub sell_tax_bps : ℕ
  pub max_fill_chunks : ℕ
  pub enforce_funds : Bool
  pub resting_limits : Bool

-- `_Holding`, with its key in `_holdings`
pub record Holding : Type 0 where
  pub ticker : ℕ
  pub market : Market
  pub qty : ℤ
  pub avg_price : ℤ

-- `_exec_cum`, `_exec_fee_cum` and `_exec_tax_cum` of one order number
pub record Totals : Type 0 where
  pub number : ℕ
  pub qty : ℕ
  pub fee : ℕ
  pub tax : ℕ

pub record Paper : Type 0 where
  pub config : PaperConfig
  pub cash : Currency → ℤ
  pub holdings : List Holding
  pub prices : ℕ → Option ℕ
  pub seq : ℕ
  pub exec_seq : ℕ
  pub executions : List Execution
  pub totals : List Totals
  pub resting : List (ℕ × OrderRequest)
  pub reserved : List (ℕ × ℕ)

unfoldable pub same_currency : Currency → Currency → Bool
unfolding Currency-discrete
same_currency a b = elim (Currency-discrete a b) [ yes _ ↦ true | no _ ↦ false ]

unfoldable pub same_market : Market → Market → Bool
unfolding Market-discrete
same_market a b = elim (Market-discrete a b) [ yes _ ↦ true | no _ ↦ false ]

-- `PaperBrokerAdapter(config)`
unfoldable pub new_paper : PaperConfig → Paper
unfolding same_currency
new_paper config = record {
  config = config;
  cash = λ c. if same_currency c krw then pos config.initial_cash else pos 0;
  holdings = [];
  prices = λ _. none;
  seq = 0;
  exec_seq = 0;
  executions = [];
  totals = [];
  resting = [];
  reserved = [];
}

-- `set_price`, and the assignment in `on_market_price`
unfoldable pub set_price : ℕ → ℕ → Paper → Paper
set_price ticker price b = record b { prices = λ t. if t == ticker then some price else b.prices t }

-- `_executions` and the sums for one order number
abbrev pub totals_of : Option Totals → ℕ → Totals
totals_of none number = record { number = number; qty = 0; fee = 0; tax = 0 }
totals_of (some t) number = t

unfoldable pub put_totals : Totals → List Totals → List Totals
put_totals t [] = t ∷ []
put_totals t (x ∷ xs) =
    let rest = put_totals t xs in if x.number == t.number then t ∷ xs else x ∷ rest

-- `_holdings.setdefault(key, _Holding())`, with a change of what it returns
unfoldable pub change_holding : ℕ → Market → (Holding → Holding) → List Holding → List Holding
unfolding same_market
change_holding ticker market f [] =
    f (record { ticker = ticker; market = market; qty = pos 0; avg_price = pos 0 }) ∷ []
change_holding ticker market f (h ∷ hs) =
    let rest = change_holding ticker market f hs in
    if h.ticker == ticker && same_market h.market market then f h ∷ hs else h ∷ rest
