-- ===== src/Market/BarBuilder.antt =====
-- short_trading_bot/market/bar_builder.py and the values of market/types.py that it uses: ticks are
-- gathered into bars. The calendar date of a tick in its own timezone is a field of the tick, as the
-- number of the day. `none` stands for a ValueError, which leaves the bars as they are.
pub mod Conservation
use short_trading_bot.Base.{
  ℕ, ◌+◌, ◌*◌, ◌/◌, Bool, true, false, ◌||◌, Option, none, some, List, [], ◌∷◌, ◌++◌, map, ltb,
  ◌==◌, if◌then◌else◌, is_some, get_at, put, pop,
}
use short_trading_bot.Domain.Enums.{Resolution, d1, bar_seconds}

pub record Tick : Type 0 where
  pub ticker : ℕ
  pub price : ℕ
  pub volume : ℕ
  pub ts : ℕ
  pub day : ℕ

pub record Bar : Type 0 where
  pub ticker : ℕ
  pub resolution : Resolution
  pub ts : ℕ
  pub opening : ℕ
  pub high : ℕ
  pub low : ℕ
  pub close : ℕ
  pub volume : ℕ
  pub value : ℕ

-- `_OpenBar`
pub record OpenBar : Type 0 where
  pub bucket : ℕ
  pub opening : ℕ
  pub high : ℕ
  pub low : ℕ
  pub close : ℕ
  pub volume : ℕ
  pub value : ℕ

unfoldable pub start_bar : ℕ → Tick → OpenBar
start_bar bucket tick = record {
  bucket = bucket;
  opening = tick.price;
  high = tick.price;
  low = tick.price;
  close = tick.price;
  volume = tick.volume;
  value = tick.price * tick.volume;
}

unfoldable pub update : Tick → OpenBar → OpenBar
update tick ob = record ob {
  high = if ltb ob.high tick.price then tick.price else ob.high;
  low = if ltb tick.price ob.low then tick.price else ob.low;
  close = tick.price;
  volume = ob.volume + tick.volume;
  value = ob.value + tick.price * tick.volume;
}

unfoldable pub finish : Resolution → ℕ → OpenBar → Bar
finish resolution ticker ob = record {
  ticker = ticker;
  resolution = resolution;
  ts = ob.bucket;
  opening = ob.opening;
  high = ob.high;
  low = ob.low;
  close = ob.close;
  volume = ob.volume;
  value = ob.value;
}

abbrev is_d1 : Resolution → Bool
is_d1 d1 = true
is_d1 _ = false

-- whether `BarBuilder(resolution)` succeeds
unfoldable pub is_aggregatable : Resolution → Bool
unfolding bar_seconds
is_aggregatable resolution = is_some (bar_seconds resolution) || is_d1 resolution

-- `_bucket`
abbrev bucket_by : Option ℕ → Tick → ℕ
bucket_by none tick = tick.day * 86400
bucket_by (some seconds) tick = tick.ts / seconds * seconds

unfoldable pub bucket_of : Resolution → Tick → ℕ
unfolding bar_seconds
bucket_of resolution tick = bucket_by (bar_seconds resolution) tick

-- `_open`
abbrev pub OpenBars : Type 0
OpenBars = List (ℕ × OpenBar)

abbrev pub place_tick :
    Resolution → ℕ → Tick → Option OpenBar → OpenBars → Option (List Bar × OpenBars)
place_tick resolution bucket tick none bars =
    some ([], put tick.ticker (start_bar bucket tick) bars)
place_tick resolution bucket tick (some ob) bars =
    if bucket == ob.bucket
    then some ([], put tick.ticker (update tick ob) bars)
    else if ltb bucket ob.bucket
    then none
    else some (finish resolution tick.ticker ob ∷ [], put tick.ticker (start_bar bucket tick) bars)

unfoldable pub on_tick : Resolution → Tick → OpenBars → Option (List Bar × OpenBars)
unfolding bucket_of start_bar update finish get_at put
on_tick resolution tick bars =
    place_tick resolution (bucket_of resolution tick) tick (get_at tick.ticker bars) bars

abbrev finished : Resolution → ℕ → Option OpenBar → List Bar
finished resolution ticker none = []
finished resolution ticker (some ob) = finish resolution ticker ob ∷ []

-- the loop of `flush`
unfoldable pub flush_all : Resolution → List ℕ → OpenBars → List Bar × OpenBars
unfolding finish get_at pop
flush_all resolution [] bars = ([], bars)
flush_all resolution (ticker ∷ tickers) bars =
    let (more, bars') = flush_all resolution tickers (pop ticker bars) in
    (finished resolution ticker (get_at ticker bars) ++ more, bars')

abbrev flush_list : Option ℕ → OpenBars → List ℕ
flush_list none bars = map (λ e. e.0) bars
flush_list (some ticker) bars = ticker ∷ []

unfoldable pub flush : Resolution → Option ℕ → OpenBars → List Bar × OpenBars
unfolding flush_all
flush resolution ticker bars = flush_all resolution (flush_list ticker bars) bars
