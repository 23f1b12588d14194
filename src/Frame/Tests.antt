-- ===== src/Frame/Tests.antt =====
-- subsys/lockgrid/lg_frame.c: tests of the header, and its theorem at a concrete frame.
use lockgrid.Prelude.{
  ℕ, true, false, List, replicate, none, some, ◌≡◌, refl, arith, ltb, leb, ◌==◌, if◌then◌else◌,
}
use lockgrid.Prelude.Bits.{has_bit}
use lockgrid.Config.{default_config}
use lockgrid.Frame.{Header, hdr_put, hdr_get, put_le16, get_le16, event_budget_us}
use lockgrid.Frame.RoundTrip.{Fits, needed, hdr_get-hdr_put}

abbrev blank : List ℕ
blank = replicate 20 0

-- A secured data frame.
abbrev secured : Header
secured = record { fcf = 0x19; seq = 7; dst = 0x1234; src = 0xabcd }

hdr_get_test :
    hdr_get default_config (hdr_put blank 0xbeef secured).0 16 0xbeef ≡ (true, some secured)
unfolding hdr_get hdr_put put_le16 get_le16 has_bit
hdr_get_test = refl

secured-Fits : Fits secured
secured-Fits = omega arith

hdr_get-hdr_put_example : hdr_get default_config (hdr_put blank 0xbeef secured).0 12 0xbeef ≡ (
    if ltb 12 8
    then (false, none)
    else if 0xbeef == 0xbeef
    then (leb (needed default_config 0x19) 12, some secured)
    else (false, none))
hdr_get-hdr_put_example =
    hdr_get-hdr_put default_config blank 12 0xbeef 0xbeef secured (omega arith) (omega arith)
      secured-Fits

budget_test : event_budget_us 100000 240 ≡ 8992
unfolding event_budget_us
budget_test = refl
