-- ===== src/Tests/Once.antt =====
-- A code that is presented twice, on the state in memory.
use kisauth.Base.{arith, refl}
use kisauth.Redis.Memory.{memory}
use kisauth.Service.{World}
use kisauth.Service.Laws.{Returns}
use kisauth.Exchange.Code.{exchange}
use kisauth.Exchange.Once.{exchange_once}
use kisauth.Tests.Runtime.{js}
use kisauth.Tests.Exchange.{as_is, rs256, config, quiet, code_request, issued, redeemed}

abbrev exchanged : World memory
exchanged = (exchange js as_is rs256 quiet config "j1" code_request issued).1

exchange_once_example :
    ¬ Returns (exchange js as_is rs256 quiet config "j2" code_request) exchanged "token" exchanged
exchange_once_example =
    exchange_once js as_is rs256 quiet quiet config "abc" "j1" "j2" "token" "token" code_request
      code_request issued exchanged exchanged exchanged (λ k w spent. spent) (λ k w spent. spent)
      (λ spent. spent) (omega arith) (λ k h. omega arith) refl refl redeemed
