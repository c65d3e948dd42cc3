-- ===== src/Wni/Client.antt =====
-- internal/wni/client.go: `Client.Run`. What the connection does from one read to the next is a
-- list of events; a nil handler is `false` in `Handlers`.
pub mod Delivery
pub mod Cuts
use irc_eew.Base.{Bool, true, false, Option, none, some, List, [], ◌∷◌, ◌++◌, if◌then◌else◌}
use irc_eew.Base.Bytes.{Bytes, codes}
use irc_eew.Wni.Frame.{
  FrameKind, response, keep_alive, telegram, unknown, Frame, World, Parser, Fed, fed, failed,
  crashed, feed,
}

-- One pass of the loop up to its `Read`.
pub data Event : Type 0 where
  -- `ctx.Err() != nil`
  canceled : Event
  -- `SetReadDeadline` fails
  no_deadline : Event
  -- `Read` fails, also by the idle timeout
  unreadable : Event
  received : Bytes → Event

pub record Handlers : Type 0 where
  pub has_data : Bool
  pub has_keep_alive : Bool
  pub has_response : Bool

-- A call of a handler.
pub data Call : Type 0 where
  on_data : Bytes → Bytes → Call
  on_keep_alive : Call
  on_response : List (Bytes × Bytes) → Call

-- How `Run` returned; `waiting` is a `Run` that still reads.
pub data Ending : Type 0 where
  waiting context_error deadline_error read_error ack_error : Ending
  -- a panic in `Feed`
  panicked : Ending
  -- a `Feed` that does not return
  diverged : Ending

-- The `switch` on the kind of a frame.
call_for : Handlers → FrameKind → Frame → List Call
call_for h telegram f = if h.has_data then on_data f.md5 f.body ∷ [] else []
call_for h keep_alive f = if h.has_keep_alive then on_keep_alive ∷ [] else []
call_for h response f = if h.has_response then on_response f.header ∷ [] else []
call_for h unknown f = []

unfoldable pub dispatch : Handlers → List Frame → List Call
unfolding call_for
dispatch h [] = []
dispatch h (f ∷ fs) = call_for h f.kind f ++ dispatch h fs

-- The frames are dispatched before the error is looked at; `again` is the rest of the loop.
after_feed : Handlers → (Parser → List Call × Ending) → Option Fed → List Call × Ending
after_feed h again none = ([], diverged)
after_feed h again (some (fed q frames)) =
    let (calls, ending) = again q in (dispatch h frames ++ calls, ending)
after_feed h again (some (failed q frames)) = (dispatch h frames, ack_error)
after_feed h again (some crashed) = ([], panicked)

unfoldable pub run : World → Handlers → Parser → List Event → List Call × Ending
unfolding after_feed
run w h p [] = ([], waiting)
run w h p (canceled ∷ events) = ([], context_error)
run w h p (no_deadline ∷ events) = ([], deadline_error)
run w h p (unreadable ∷ events) = ([], read_error)
run w h p (received chunk ∷ events) = after_feed h (λ q. run w h q events) (feed w p chunk)

-- The request of `Login`; `hash` is `passwordHash`, `now` the time.
unfoldable pub login_request : Bytes → Bytes → Bytes → Bytes
login_request user hash now =
    codes "GET /login HTTP/1.0\nUser-Agent: FastCaster/1.0 powered by weathernews.\nAccept: */*\n"
    ++ (codes "Cache-Control: no-cache\nX-WNI-Account: "
        ++ (user
            ++ (codes "\nX-WNI-Password: "
                ++ (hash
                    ++ (codes "\nX-WNI-Application-Version: 2.2.4.0\n"
                        ++ (codes "X-WNI-Authentication-Method: MDB_MWS\nX-WNI-ID: Login\n"
                            ++ (codes "X-WNI-Protocol-Version: 2.1\nX-WNI-Terminal-ID: 211363088\n"
                                ++ (codes "X-WNI-Time: " ++ (now ++ codes "\n\n")))))))))

-- `passwordHash`; the hex text of `md5.Sum` is an argument.
unfoldable pub password_hash : (Bytes → Bytes) → Bytes → Bytes → Bytes
password_hash md5_hex passwd [] = md5_hex passwd
password_hash md5_hex passwd (c ∷ passwd_md5) = c ∷ passwd_md5
