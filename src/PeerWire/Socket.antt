-- ===== src/PeerWire/Socket.antt =====
-- tcp_send and tcp_recv of bt_lib.c. The connection with its write and read calls is the operating
-- system's and the peer's: a parameter of the model.
use bitfs.Base.{ℕ, ◌≤◌, ◌<◌, ◌≡◌, List, ◌++◌, length, take, drop, if◌then◌else◌}
use bitfs.Base.Int.{ℤ, pos, negsuc, ltb_ℤ}

-- What read returns: a count below 0, or the bytes that it has put into the buffer (none when the
-- other side has closed the connection).
pub data Received : Type 0 where
  failed : Received
  got : List ℕ → Received

pub record Socket : Type 1 where
  pub State : Type 0
  pub write : State → List ℕ → ℤ × State
  pub read : State → ℕ → Received × State

-- static int tcp_send(int, char *, int)
unfoldable pub tcp_send : (K : Socket) → List ℕ → K.State → ℤ × K.State
tcp_send K send_buf s =
    let (nsent, s') = K.write s send_buf in ((if ltb_ℤ nsent (pos 0) then negsuc 0 else nsent), s')

-- static int tcp_recv(int, char *, int): the count is the length of what was received, or -1.
unfoldable pub tcp_recv : (K : Socket) → ℕ → K.State → Received × K.State
tcp_recv K recv_buf_len s = K.read s recv_buf_len

-- A peer that answers what it is asked. Bytes that it has sent arrive in their order, and each read
-- brings some of them, though perhaps fewer than were asked for. What it sends after a write is
-- `answer` of the bytes written.
pub record IsPeer (K : Socket) (answer : List ℕ → List ℕ) : Type 0 where
  pub incoming : K.State → List ℕ
  pub write_all :
      (s : K.State) (bs : List ℕ)
      → (t : K.State) × (K.write s bs ≡ (pos (length bs), t))
        × (incoming t ≡ incoming s ++ answer bs)
  pub read_some :
      (s : K.State) (n : ℕ)
      → 0 < n
      → 0 < length (incoming s)
      → (k : ℕ) × (t : K.State) × (0 < k)
        × (k ≤ n)
        × (k ≤ length (incoming s))
        × (K.read s n ≡ (got (take k (incoming s)), t))
        × (incoming t ≡ drop k (incoming s))
