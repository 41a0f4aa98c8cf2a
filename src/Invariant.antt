-- ===== src/Invariant.antt =====
-- The well-formedness of a pool that its operations keep, and what an operation leaves as it was.
pub mod Frame
use hiredispool.Base.{
  ℕ, ◌<◌, ◌≡◌, refl, ap, ◌∙◌, Bool, true, false, Option, none, some, List, All, All-get, All-set,
  get_elem?, set, length, length-set, get_elem?-set_self, get_elem?-set_ne, lt-length, arith, ◌⊎◌,
  inl, inr, ℤ, pos, negsuc,
}
use native.Mathlib.Decide.{ℕ_discrete}
use hiredispool.Config.{Config, count_of}
use hiredispool.Config.Bounds.{IsAccepted}
use hiredispool.Platform.{Platform}
use hiredispool.Instance.{SockState, sockunconnected, sockconnected, Socket, Instance, store}
use hiredispool.Connect.{Connected, connect_single_socket}
use hiredispool.Connect.Results.{Failed, Succeeded, connect_cases}

-- A connected socket has a context, and an unconnected one has none.
abbrev pub IsLinked : SockState → Option ℕ → Type 0
IsLinked sockconnected conn = (c : ℕ) × (conn ≡ some c)
IsLinked sockunconnected conn = conn ≡ none

pub record IsSocket (k : Config) (x : Socket) : Type 0 where
  pub backup_lt : x.backup < count_of k
  pub linked : IsLinked x.state x.conn

-- The pointer is NULL or leads to one of `n` sockets.
abbrev pub PointsInto : ℕ → Option ℕ → Type 0
PointsInto n none = Unit
PointsInto n (some i) = i < n

pub record IsPool (s : Instance) : Type 0 where
  pub accepted : IsAccepted s.config
  pub sockets : All (IsSocket s.config) s.redis_pool
  pub pointer : PointsInto (length s.redis_pool) s.last_used

-- What connect_single_socket leaves of a socket: it is well formed again, with the same id and the
-- same `inuse`, and connected exactly if the code is 0.
pub record IsReconnected {W : Type 0} (k : Config) (x : Socket) (r : Connected W) : Type 0 where
  pub formed : IsSocket k r.sock
  pub same_id : r.sock.id ≡ x.id
  pub same_inuse : r.sock.inuse ≡ x.inuse
  pub outcome :
      (r.rc ≡ pos 0) × (r.sock.state ≡ sockconnected)
      ⊎ (r.rc ≡ negsuc 0) × (r.sock.state ≡ sockunconnected) × (r.sock.conn ≡ none)

IsLinked-up :
    (y : Socket) (c : ℕ) → y.state ≡ sockconnected → y.conn ≡ some c → IsLinked y.state y.conn
IsLinked-up y c e f = rw e (c, f)

IsLinked-down : (y : Socket) → y.state ≡ sockunconnected → y.conn ≡ none → IsLinked y.state y.conn
IsLinked-down y e f = rw e f

module _ {W : Type 0} (p : Platform W) (k : Config) (after : ℤ) (x : Socket) where
  Failed-IsReconnected :
      (r : Connected W) → x.backup < count_of k → Failed p k x after r → IsReconnected k x r
  Failed-IsReconnected r h f = record {
    formed = record {
      backup_lt = rw f.sock_after h;
      linked =
          IsLinked-down r.sock (ap (λ y. y.state) f.sock_after) (ap (λ y. y.conn) f.sock_after);
    };
    same_id = ap (λ y. y.id) f.sock_after;
    same_inuse = ap (λ y. y.inuse) f.sock_after;
    outcome = inr (f.code, ap (λ y. y.state) f.sock_after, ap (λ y. y.conn) f.sock_after);
  }

  Succeeded-IsReconnected : (r : Connected W) → Succeeded p k x after r → IsReconnected k x r
  Succeeded-IsReconnected r f = record {
    formed = record {
      backup_lt = f.backup_lt;
      linked =
          IsLinked-up r.sock f.context (ap (λ y. y.state) f.sock_after)
            (ap (λ y. y.conn) f.sock_after);
    };
    same_id = ap (λ y. y.id) f.sock_after;
    same_inuse = ap (λ y. y.inuse) f.sock_after;
    outcome = inl (f.code, ap (λ y. y.state) f.sock_after);
  }

  pub connect-IsReconnected :
      (w : W) → x.backup < count_of k → IsReconnected k x (connect_single_socket p k after x w)
  connect-IsReconnected w h = elim (connect_cases p k x after w h) [
    | inl f ↦ Failed-IsReconnected _ h f
    | inr f ↦ Succeeded-IsReconnected _ f
  ]
