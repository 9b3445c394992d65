-- ===== src/AstroportFarm/Reachable.antt =====
-- What holds of a farm after any run of messages.
use baz_core.Common.{◌≡◌, List, ok, arith}
use baz_core.Cosmwasm.{Cosmwasm, IsDocumented}
use baz_core.Cosmwasm.Standard.{at_standard}
use baz_core.Host.{Env, MessageInfo}
use baz_core.AstroportFarm.Defs.{Store}
use baz_core.AstroportFarm.Bond.{Deps, Message}
use baz_core.AstroportFarm.Contract.{InstantiateMsg, instantiate, ExecuteMsg, execute}
use baz_core.AstroportFarm.Supply.{IsSound}
use baz_core.AstroportFarm.Books.{execute-IsSound-standard}

-- Whatever a message does, where it succeeds, the total of the shares stays the sum of the
-- entries' shares, and no account has two entries.
message_keeps_shares :
    (c : Cosmwasm)
    → IsDocumented c
    → (d : Deps) (env : Env) (info : MessageInfo) (msg : ExecuteMsg) (s s' : Store)
      (ms : List Message)
    → IsSound s
    → execute c d env info msg s ≡ ok (s', ms)
    → IsSound s'
message_keeps_shares = at_standard _ execute-IsSound-standard

-- The stores that messages lead to. At each message the other contracts answer anew.
pub data Reach (c : Cosmwasm) (s : Store) : Store → Type 0 where
  here : Reach c s s
  next :
      {t u : Store} (d : Deps) (env : Env) (info : MessageInfo) (msg : ExecuteMsg)
      (ms : List Message)
      → Reach c s t
      → execute c d env info msg t ≡ ok (u, ms)
      → Reach c s u

new-IsSound : (d : Deps) (msg : InstantiateMsg) (s : Store) → instantiate d msg ≡ ok s → IsSound s
unfolding instantiate
new-IsSound d msg s h = ground arith

Reach-IsSound :
    (c : Cosmwasm) → IsDocumented c → {s t : Store} → IsSound s → Reach c s t → IsSound t
Reach-IsSound c e v here = v
Reach-IsSound c e v (next {t = t} {u = u} d env info msg ms r h) =
    message_keeps_shares c e d env info msg t u ms (Reach-IsSound c e v r) h

-- From its instantiation on, whatever messages come and whatever the other contracts answer, the
-- total of the shares is the sum of the entries' shares, and no account has two entries.
pub reachable_shares :
    (c : Cosmwasm)
    → IsDocumented c
    → (d : Deps) (msg : InstantiateMsg) (s t : Store) → instantiate d msg ≡ ok s
    → Reach c s t
    → IsSound t
reachable_shares c e d msg s t h r = Reach-IsSound c e (new-IsSound d msg s h) r
