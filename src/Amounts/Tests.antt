-- ===== src/Amounts/Tests.antt =====
-- Runs of the amount functions.
use sumurai.Prelude.{◌≡◌, refl}
use sumurai.Prelude.Int.{pos, negsuc}
use sumurai.Samples.{march, refund, transfer}
use sumurai.Amounts.{get_net_spending_amount}
use sumurai.Amounts.Evaluation.{amounts}

nets :
    (get_net_spending_amount march ≡ pos 2500)
    × (get_net_spending_amount refund ≡ negsuc 499)
    × (get_net_spending_amount transfer ≡ pos 0)
unfolding amounts
nets = (refl, refl, refl)
