-- ===== src/Market/BarBuilder/Conservation.antt =====
-- No tick is lost or counted twice on its way into the bars, and a bar spans the prices of its ticks.
use short_trading_bot.Base.{
  ℕ, ◌+◌, ◌≡◌, refl, Option, none, some, List, [], ◌∷◌, ◌++◌, arith, ◌==◌, if◌then◌else◌, get_at,
  get_at-put, Bool-cases, inl, inr,
}
use short_trading_bot.Domain.Enums.{Resolution}
use short_trading_bot.Market.BarBuilder.{
  Tick, Bar, OpenBar, OpenBars, on_tick, place_tick, start_bar, update, finish, bucket_of,
}

-- ticks handed over one after another; a tick that is out of order ends the run
abbrev then_more : List Bar → Option (List Bar × OpenBars) → Option (List Bar × OpenBars)
then_more done none = none
then_more done (some (more, bars)) = some (done ++ more, bars)

abbrev feed_rest :
    (OpenBars → Option (List Bar × OpenBars))
    → Option (List Bar × OpenBars)
    → Option (List Bar × OpenBars)
feed_rest next none = none
feed_rest next (some (done, bars)) = then_more done (next bars)

unfoldable pub feed : Resolution → List Tick → OpenBars → Option (List Bar × OpenBars)
unfolding on_tick
feed resolution [] bars = some ([], bars)
feed resolution (tick ∷ ticks) bars =
    feed_rest (feed resolution ticks) (on_tick resolution tick bars)

-- what was traded of a ticker: in ticks, in bars, and in the bar that is open
abbrev pub tick_volume : ℕ → List Tick → ℕ
tick_volume k [] = 0
tick_volume k (t ∷ ts) = (if t.ticker == k then t.volume else 0) + tick_volume k ts

abbrev pub bar_volume : ℕ → List Bar → ℕ
bar_volume k [] = 0
bar_volume k (b ∷ bs) = (if b.ticker == k then b.volume else 0) + bar_volume k bs

abbrev volume_in : Option OpenBar → ℕ
volume_in none = 0
volume_in (some ob) = ob.volume

abbrev pub open_volume : ℕ → OpenBars → ℕ
open_volume k bars = volume_in (get_at k bars)

bar_volume-append :
    (k : ℕ) (xs ys : List Bar) → bar_volume k (xs ++ ys) ≡ bar_volume k xs + bar_volume k ys
bar_volume-append k [] ys = omega arith
bar_volume-append k (x ∷ xs) ys = omega (arith, bar_volume-append k xs ys)

place_tick_volume :
    (resolution : Resolution) (bucket k : ℕ) (tick : Tick) (bars : OpenBars) {done : List Bar}
    {bars' : OpenBars} (ob : Option OpenBar)
    → get_at tick.ticker bars ≡ ob
    → place_tick resolution bucket tick ob bars ≡ some (done, bars')
    → bar_volume k done + open_volume k bars'
      ≡ open_volume k bars + (if tick.ticker == k then tick.volume else 0)
unfolding start_bar update finish
place_tick_volume resolution bucket k tick bars none g h =
    ground (arith, get_at-put k tick.ticker (start_bar bucket tick) bars)
place_tick_volume resolution bucket k tick bars (some ob) g h =
    elim (Bool-cases (bucket == ob.bucket)) [
      | inl t ↦ ground (arith, get_at-put k tick.ticker (update tick ob) bars)
      | inr f ↦ ground (arith, get_at-put k tick.ticker (start_bar bucket tick) bars)
    ]

on_tick_volume :
    (resolution : Resolution) (k : ℕ) (tick : Tick) (bars : OpenBars) {done : List Bar}
    {bars' : OpenBars}
    → on_tick resolution tick bars ≡ some (done, bars')
    → bar_volume k done + open_volume k bars'
      ≡ open_volume k bars + (if tick.ticker == k then tick.volume else 0)
unfolding on_tick
on_tick_volume resolution k tick bars h =
    place_tick_volume resolution (bucket_of resolution tick) k tick bars (get_at tick.ticker bars)
      refl h

more_volume :
    (k : ℕ) (out : Option (List Bar × OpenBars)) (total : ℕ) (first : List Bar)
    → ((a : List Bar) (b : OpenBars)
        → out ≡ some (a, b)
        → bar_volume k first + (bar_volume k a + open_volume k b) ≡ total)
    → {done : List Bar} {bars' : OpenBars} → then_more first out ≡ some (done, bars')
    → bar_volume k done + open_volume k bars' ≡ total
more_volume k none total first f h = cc
more_volume k (some (more, last)) total first f {done} {bars'} h =
    let d : done ≡ first ++ more = cc in
    let b : bars' ≡ last = cc in rw (d, b, bar_volume-append) (omega (arith, f more last refl))

rest_volume :
    (k : ℕ) (tick : Tick) (ticks : List Tick) (bars : OpenBars) (one : Option (List Bar × OpenBars))
    (next : OpenBars → Option (List Bar × OpenBars))
    → ((a : List Bar) (b : OpenBars)
        → one ≡ some (a, b)
        → bar_volume k a + open_volume k b
          ≡ open_volume k bars + (if tick.ticker == k then tick.volume else 0))
    → ((mid : OpenBars) (a : List Bar) (b : OpenBars)
        → next mid ≡ some (a, b)
        → bar_volume k a + open_volume k b ≡ open_volume k mid + tick_volume k ticks)
    → {done : List Bar} {bars' : OpenBars} → feed_rest next one ≡ some (done, bars')
    → bar_volume k done + open_volume k bars' ≡ open_volume k bars + tick_volume k (tick ∷ ticks)
rest_volume k tick ticks bars none next f g h = cc
rest_volume k tick ticks bars (some (first, mid)) next f g h =
    more_volume k (next mid) (open_volume k bars + tick_volume k (tick ∷ ticks)) first
      (λ a b e. omega (arith, f first mid refl, g mid a b e)) h

-- Over a run of ticks in order, what the finished bars and the open bar of a ticker have of volume
-- is what the open bar had before and what was traded in the ticks.
pub feed_volume :
    (resolution : Resolution) (k : ℕ) (ticks : List Tick) (bars : OpenBars) {done : List Bar}
    {bars' : OpenBars}
    → feed resolution ticks bars ≡ some (done, bars')
    → bar_volume k done + open_volume k bars' ≡ open_volume k bars + tick_volume k ticks
unfolding feed
feed_volume resolution k [] bars h = ground arith
feed_volume resolution k (tick ∷ ticks) bars {done} {bars'} h =
    rest_volume k tick ticks bars (on_tick resolution tick bars) (feed resolution ticks)
      (λ a b e. on_tick_volume resolution k tick bars e)
      (λ mid a b e. feed_volume resolution k ticks mid e) h
