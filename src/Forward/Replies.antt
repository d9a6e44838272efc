-- ===== src/Forward/Replies.antt =====
-- `copyResponse`, `writeError` and `http.Error`: what the client is sent.
use Prim.Native.Nat.{ℕ, ◌-◌, ◌≤◌}
use mathlib.Core.List.{List, [], ◌∷◌, ◌++◌, flatten}
use mathlib.Core.Path.{◌≡◌, refl}
use aitori.Base.{Bool, true, false, leb, if◌then◌else◌, arith, le→leb, length, take, length-append}
use aitori.Base.Text.{Str, codes}
use aitori.Http.{Header, set, add}
use aitori.Forward.Hops.{remove_hop_by_hop}

-- A response of a server: its body comes in the pieces that the reads return, its trailers after
-- the body.
pub record Response : Type 0 where
  pub status : ℕ
  pub header : Header
  pub chunks : List Str
  pub trailer : Header

-- What reaches the client.
pub record Reply : Type 0 where
  pub status : ℕ
  pub header : Header
  pub body : Str
  pub trailer : Header

-- `outcome`.
pub record Outcome : Type 0 where
  pub status : ℕ
  pub bytes : ℕ
  pub rerouted : Bool
  pub gateway_gap : Bool
  pub err_msg : Str

abbrev pub no_outcome : Outcome
no_outcome = record { status = 0; bytes = 0; rerouted = false; gateway_gap = false; err_msg = [] }

-- `for _, v := range vs { dst.Add(k, v) }`
add_values : Header → Str → List Str → Header
add_values dst k [] = dst
add_values dst k (v ∷ vs) = add_values (add dst k v) k vs

-- `copyHeader`.
unfoldable pub copy_header : Header → Header → Header
unfolding add_values
copy_header dst [] = dst
copy_header dst ((k, vs) ∷ src) = copy_header (add_values dst k vs) src

join_keys : Header → Str
join_keys [] = []
join_keys ((k, vs) ∷ []) = k
join_keys ((k, vs) ∷ kv ∷ h) = k ++ (codes ", " ++ join_keys (kv ∷ h))

announce : Header → Header → Header
announce dst [] = dst
announce dst (kv ∷ trailer) = set dst (codes "Trailer") (join_keys (kv ∷ trailer))

-- The copying loop, for a client that takes `room` bytes before a write fails. The flag tells
-- that the body was read to its end.
copy_body : ℕ → List Str → Str × Bool
copy_body room [] = ([], true)
copy_body room (chunk ∷ chunks) =
    let rest = copy_body (room - length chunk) chunks in
    if leb (length chunk) room then (chunk ++ rest.0, rest.1) else (take room chunk, false)

-- `copyResponse`, on a reply with no header yet.
unfoldable pub copy_response : ℕ → Response → Outcome → Reply × Outcome
unfolding copy_body announce join_keys copy_header
copy_response room res oc =
    let written = copy_body room res.chunks in
    (
      record {
        status = res.status;
        header = announce (copy_header [] (remove_hop_by_hop res.header)) res.trailer;
        body = written.0;
        trailer = if written.1 then res.trailer else [];
      },
      record oc { status = res.status; bytes = length written.0 },
    )

-- `http.Error(w, msg, code)`.
unfoldable pub http_error : ℕ → Str → Reply
http_error code msg = record {
  status = code;
  header =
      set (set [] (codes "Content-Type") (codes "text/plain; charset=utf-8"))
        (codes "X-Content-Type-Options") (codes "nosniff");
  body = msg ++ 10 ∷ [];
  trailer = [];
}

-- `writeError`: a bad gateway.
unfoldable pub write_error : Outcome → Str → Reply × Outcome
unfolding http_error
write_error oc msg = (http_error 502 msg, record oc { status = 502; err_msg = msg })

copy_body-all :
    (room : ℕ) (chunks : List Str)
    → length (flatten chunks) ≤ room
    → copy_body room chunks ≡ (flatten chunks, true)
unfolding copy_body flatten
copy_body-all room [] h = refl
copy_body-all room (chunk ∷ chunks) h =
    let size = length-append chunk (flatten chunks) in
    rw (
      le→leb (length chunk) room (omega (arith, size)),
      copy_body-all (room - length chunk) chunks (omega (arith, size)),
    )

-- To a client that takes all of it a response goes out verbatim: its status, the bytes of its body
-- in order, each counted once, and its trailers.
pub copy_response-verbatim :
    (room : ℕ) (res : Response) (oc : Outcome)
    → length (flatten res.chunks) ≤ room
    → let (reply, oc') = copy_response room res oc in
      (reply.status ≡ res.status)
      × (reply.body ≡ flatten res.chunks)
      × (reply.trailer ≡ res.trailer)
      × (oc'.bytes ≡ length (flatten res.chunks))
unfolding copy_response
copy_response-verbatim room res oc h = rw (copy_body-all room res.chunks h) (refl, refl, refl, refl)
