-- ===== src/Nbd/Handshake.antt =====
-- The fixed newstyle handshake of ovirt_imageio/_internal/nbd.py: the options that the client negotiates
-- and the replies of the server to them.
--
-- `is_utf8` says which bytes are text in UTF-8, for the names that the server sends. A loop on the
-- replies to an option has more fuel than the bytes that the server sends, and each reply takes some.
-- The message of an error is empty where the source has one of its own.
pub mod Server
pub mod Go
pub mod Sized
use Prim.Native.Nat.{bit_and}
use ovirt_imageio.Base.{
  ℕ, zero, suc, ◌+◌, ◌-◌, Bool, true, false, not, ◌&&◌, ◌||◌, Option, none, some, List, [], ◌∷◌,
  ◌++◌, leb, ltb, ◌==◌, if◌then◌else◌, length, drop,
}
use ovirt_imageio.Base.Exec.{
  Exec, Result, ok, err, pure, raise, raise_if, gets, modify, ◌>>=◌, ◌>>◌,
}
use ovirt_imageio.Nbd.Wire.{pack, field}
use ovirt_imageio.Nbd.Command.{Name}
use ovirt_imageio.Nbd.Client.{
  Client, Error, protocol_error, invalid_length, unexpected_option_reply, option_unsupported,
  option_error, unicode_error, out_of_fuel, handshake, transmission, same_name, assign, recv, sends,
}
use ovirt_imageio.Nbd.Reply.{allocation_depth}
use ovirt_imageio.Nbd.Requests.{send_option}

abbrev Method : Type 0 → Type 0
Method A = Exec Error Client A

-- "base:allocation"
abbrev pub base_allocation : Name
base_allocation =
    98 ∷ 97 ∷ 115 ∷ 101 ∷ 58 ∷ 97 ∷ 108 ∷ 108 ∷ 111 ∷ 99 ∷ 97 ∷ 116 ∷ 105 ∷ 111 ∷ 110 ∷ []

-- "qemu:dirty-bitmap:"
abbrev pub qemu_dirty_bitmap : Name
qemu_dirty_bitmap =
    113 ∷ 101 ∷ 109 ∷ 117 ∷ 58 ∷ 100 ∷ 105 ∷ 114 ∷ 116 ∷ 121 ∷ 45 ∷ 98 ∷ 105 ∷ 116 ∷ 109 ∷ 97 ∷ 112
    ∷ 58 ∷ []

abbrev pub rep_err_unsup : ℕ
rep_err_unsup = 2147483649

-- The keys of ERROR_REPLY.
abbrev pub is_error_reply : ℕ → Bool
is_error_reply reply = leb rep_err_unsup reply && leb reply 2147483657

-- `_format_go_option_data` with no requests.
unfoldable pub format_go_option_data : Name → List ℕ
unfolding pack
format_go_option_data name = pack 4 (length name) ++ name ++ pack 2 0

-- `_format_meta_context_data`
unfoldable pub format_queries : List Name → List ℕ
unfolding pack
format_queries [] = []
format_queries (query ∷ queries) = pack 4 (length query) ++ query ++ format_queries queries

unfoldable pub format_meta_context_data : Name → List Name → List ℕ
unfolding pack format_queries
format_meta_context_data name queries =
    pack 4 (length name) ++ name ++ pack 4 (length queries) ++ format_queries queries

unfoldable pub is_one_of : Name → List Name → Bool
unfolding same_name
is_one_of name [] = false
is_one_of name (query ∷ queries) = same_name name query || is_one_of name queries

abbrev is_bitmap : Option Name → Name → Bool
is_bitmap none name = false
is_bitmap (some bitmap) name = same_name name bitmap

-- What `except OptionUnsupported` goes on with.
abbrev pub unless_unsupported : {A : Type 0} → A → Result Error A × Client → Result Error A × Client
unless_unsupported a (err (option_unsupported opt), c) = (ok a, c)
unless_unsupported a p = p

module _ (serve : ℕ → ℕ) (is_utf8 : List ℕ → Bool) where
  -- `_recv_option_reply`: the reply, and the size of its data.
  unfoldable pub recv_option_reply : ℕ → Method (ℕ × ℕ)
  unfolding recv field
  recv_option_reply expected_option = do
    header ← recv serve 20
    raise_if (not (field 0 8 header == 0x3e889045565a9)) protocol_error
    raise_if (not (field 8 4 header == expected_option)) protocol_error
    pure (field 12 4 header, field 16 4 header)

  -- `_handle_option_error`
  unfoldable pub handle_option_error : {A : Type 0} → ℕ → ℕ → ℕ → Method A
  unfolding recv
  handle_option_error opt reply size = do
    message ← recv serve size
    (if reply == rep_err_unsup
        then raise (option_unsupported opt)
        else raise (option_error opt reply message))

  -- `_negotiate_option`
  unfoldable pub negotiate_option : ℕ → List ℕ → Method (Unit {0})
  unfolding recv_option_reply handle_option_error send_option
  negotiate_option opt bytes = do
    send_option opt bytes
    reply ← recv_option_reply opt
    (if is_error_reply reply.0 then handle_option_error opt reply.0 reply.1 else pure tt)
    raise_if (not (reply.0 == 1)) (unexpected_option_reply reply.0 opt)
    raise_if (not (reply.1 == 0)) (invalid_length reply.1 0)

  -- `_negotiate_structured_reply_option`
  unfoldable pub negotiate_structured_reply : Method (Unit {0})
  unfolding negotiate_option
  negotiate_structured_reply c =
      unless_unsupported tt
        ((negotiate_option 8 [] >> modify (λ c. record c { structured_reply = true })) c)

  -- `_recv_meta_context_reply`
  unfoldable pub recv_meta_context_reply : ℕ → Method (Name × ℕ)
  unfolding recv field
  recv_meta_context_reply size = do
    raise_if (ltb size 4) (invalid_length size 4)
    bytes ← recv serve size
    raise_if (not (is_utf8 (drop 4 bytes))) unicode_error
    pure (drop 4 bytes, field 0 4 bytes)

  -- `_iter_meta_context_replies` with the body of the loop on it: the contexts, in order.
  unfoldable pub each_context : (Name × ℕ → Method (Unit {0})) → ℕ → ℕ → Method (List (Name × ℕ))
  unfolding recv_option_reply handle_option_error recv_meta_context_reply
  each_context body opt zero c = (err out_of_fuel, c)
  each_context body opt (suc fuel) c =
      (do
        reply ← recv_option_reply opt
        (if is_error_reply reply.0
            then (λ c. unless_unsupported [] (handle_option_error opt reply.0 reply.1 c))
            else if reply.0 == 1
            then (do raise_if (not (reply.1 == 0)) (invalid_length reply.1 0); pure [])
            else (do
              raise_if (not (reply.0 == 4)) (unexpected_option_reply reply.0 opt)
              context ← recv_meta_context_reply reply.1
              body context
              rest ← each_context body opt fuel
              pure (context ∷ rest))))
        c

  abbrev enough : Client → ℕ
  enough c = suc (length c.sock.incoming)

  -- `_query_dirty_bitmap`
  abbrev only_bitmap : List (Name × ℕ) → Option Name
  only_bitmap [] = none
  only_bitmap (bitmap ∷ []) = some bitmap.0
  only_bitmap (bitmap ∷ other ∷ bitmaps) = none

  unfoldable pub query_dirty_bitmap : Method (Option Name)
  unfolding each_context format_meta_context_data send_option
  query_dirty_bitmap = do
    name ← gets (λ c. c.export_name)
    send_option 9 (format_meta_context_data name (qemu_dirty_bitmap ∷ []))
    fuel ← gets enough
    bitmaps ← each_context (λ context. pure tt) 9 fuel
    pure (only_bitmap bitmaps)

  -- The body of the loop of `_set_meta_context`.
  unfoldable pub set_context : Option Name → List Name → Name × ℕ → Method (Unit {0})
  unfolding is_one_of assign same_name
  set_context bitmap queries context = do
    raise_if (not (is_one_of context.0 queries)) protocol_error
    modify (λ c. record c {
      context_ids = assign same_name context.0 context.1 c.context_ids;
      context_names = assign (λ a b. a == b) context.1 context.0 c.context_names;
      dirty_bitmap = if is_bitmap bitmap context.0 then bitmap else c.dirty_bitmap;
    })

  abbrev pub queries_for : Option Name → List Name
  queries_for none = base_allocation ∷ allocation_depth ∷ []
  queries_for (some bitmap) = base_allocation ∷ allocation_depth ∷ bitmap ∷ []

  -- `_set_meta_context`
  unfoldable pub set_meta_context : Option Name → Method (Unit {0})
  unfolding each_context set_context format_meta_context_data send_option
  set_meta_context bitmap = do
    name ← gets (λ c. c.export_name)
    send_option 10 (format_meta_context_data name (queries_for bitmap))
    fuel ← gets enough
    each_context (set_context bitmap (queries_for bitmap)) 10 fuel
    pure tt

  -- `_recv_export_info`
  unfoldable pub recv_export_info : ℕ → Method (Unit {0})
  unfolding recv field
  recv_export_info size = do
    raise_if (not (size == 10)) (invalid_length size 10)
    bytes ← recv serve 10
    modify (λ c. record c {
      export_size = some (field 0 8 bytes);
      transmission_flags = some (field 8 2 bytes);
    })

  -- `_recv_blocksize_info`
  unfoldable pub recv_blocksize_info : ℕ → Method (Unit {0})
  unfolding recv field
  recv_blocksize_info size = do
    raise_if (not (size == 12)) (invalid_length size 12)
    bytes ← recv serve 12
    modify (λ c. record c {
      minimum_block_size = field 0 4 bytes;
      preferred_block_size = field 4 4 bytes;
      maximum_block_size = field 8 4 bytes;
    })

  -- An information reply of `size` bytes.
  unfoldable pub recv_info : ℕ → Method (Unit {0})
  unfolding recv field recv_export_info recv_blocksize_info
  recv_info size = do
    raise_if (ltb size 2) (invalid_length size 2)
    bytes ← recv serve 2
    (if field 0 2 bytes == 0
        then recv_export_info (size - 2)
        else if field 0 2 bytes == 3
        then recv_blocksize_info (size - 2)
        else (do recv serve (size - 2); pure tt))

  -- "Server did not send export size or transmission flags"
  abbrev pub check_export : Option ℕ → Option ℕ → Method (Unit {0})
  check_export (some size) (some flags) c = (ok tt, c)
  check_export (some size) none c = (err protocol_error, c)
  check_export none flags c = (err protocol_error, c)

  -- `if reply == REP_ACK`
  abbrev pub go_ack : ℕ → Method (Unit {0})
  go_ack size = do
    raise_if (not (size == 0)) (invalid_length size 0)
    (λ c. check_export c.export_size c.transmission_flags c)

  -- A round of the loop of `_negotiate_go_option`: whether the reply is an error, and whether it is
  -- REP_ACK.
  abbrev pub go_round : Method (Unit {0}) → ℕ → ℕ → Bool → Bool → Method (Unit {0})
  go_round next reply size true ack = handle_option_error 7 reply size
  go_round next reply size false true = go_ack size
  go_round next reply size false false = do
    raise_if (not (reply == 3)) (unexpected_option_reply reply 7)
    recv_info size
    next

  abbrev pub go_reply : Method (Unit {0}) → ℕ × ℕ → Method (Unit {0})
  go_reply next reply = go_round next reply.0 reply.1 (is_error_reply reply.0) (reply.0 == 1)

  unfoldable pub go_loop : ℕ → Method (Unit {0})
  unfolding recv_option_reply handle_option_error recv_info
  go_loop zero c = (err out_of_fuel, c)
  go_loop (suc fuel) c = (recv_option_reply 7 >>= go_reply (go_loop fuel)) c

  -- `_negotiate_go_option`
  unfoldable pub negotiate_go_option : Method (Unit {0})
  unfolding go_loop format_go_option_data send_option
  negotiate_go_option = do
    name ← gets (λ c. c.export_name)
    send_option 7 (format_go_option_data name)
    fuel ← gets enough
    go_loop fuel

  abbrev pub negotiate_contexts : Bool → Bool → Method (Unit {0})
  negotiate_contexts true true = query_dirty_bitmap >>= set_meta_context
  negotiate_contexts true false = set_meta_context none
  negotiate_contexts false dirty = pure tt

  -- The end of `_newstyle_handshake`.
  abbrev pub options : Bool → Method (Unit {0})
  options dirty = do
    negotiate_structured_reply
    structured ← gets (λ c. c.structured_reply)
    negotiate_contexts structured dirty

  abbrev pub go : Method (Unit {0})
  go = do negotiate_go_option; modify (λ c. record c { state = transmission })

  -- The initial handshake.
  abbrev pub greet : Method (Unit {0})
  greet = do
    modify (λ c. record c { state = handshake })
    greeting ← recv serve 18
    raise_if (not (field 0 8 greeting == 0x4e42444d41474943)) protocol_error
    raise_if (not (field 8 8 greeting == 0x49484156454F5054)) protocol_error
    raise_if (bit_and (field 16 2 greeting) 1 == 0) protocol_error
    sends (pack 4 1)

  -- `_newstyle_handshake` of a client that is connecting.
  unfoldable pub newstyle_handshake : Bool → Method (Unit {0})
  unfolding recv field negotiate_structured_reply query_dirty_bitmap set_meta_context
      negotiate_go_option
  newstyle_handshake dirty = (greet >> options dirty) >>= λ _. go
