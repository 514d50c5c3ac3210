-- ===== src/Wsnl/Bootstrap.antt =====
-- The initialiser of the nodes of wavelet/src/wsnl that are run once in the first cycle.
use wavelet_rs.Prelude.{ret}
use wavelet_rs.EventDriver.Yield
use wavelet_rs.Node.Builder.{OnInit}
use wavelet_rs.Platform.{Platform}

-- The node yields.
abbrev pub yield_first : {K : Platform} {D : Type 0} → OnInit K D
yield_first idx d e =
    let driver = e.event_driver in
    ret (
      d,
      record e {
        event_driver = record driver { yield_driver = Yield.yield_now driver.yield_driver idx };
      },
    )
