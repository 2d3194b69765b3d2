-- ===== src/Protocol/Parser.antt =====
-- `parse` of `src/protocol/h1/parser/mod.rs`: the phases, and the loops around them.
pub mod Shrinks
pub mod Ends
pub mod Safe
pub mod Turns
pub mod Ended
pub mod Parsed
pub mod Started
pub mod Returns
pub mod Body
pub mod Arrival
pub mod Chunk
use kawa.Prelude.{
  Run, done, panic, out_of_fuel, to_run, then_run, codes, digit, push_digit, parse_digits,
  parse_uint, max_u16, max_usize, ℕ, zero, suc, ◌+◌, ◌-◌, ◌*◌, ◌/◌, ◌%◌, ◌^◌, ◌≤◌, ◌<◌, min, ◌≡◌,
  refl, sym, ap, ap₂, ◌∙◌, subst, ◌≢◌, ◌↔◌, ◌⊎◌, inl, inr, Bool, true, false, not, ◌&&◌, ◌||◌,
  Option, none, some, List, [], ◌∷◌, ◌++◌, map, append-nil, append_assoc, arith, ltb, leb, ◌==◌,
  if◌then◌else◌, ltb→lt, lt→ltb, le→ltb, leb→le, le→leb, lt→leb, ==_iff, Bool-cases, Option-cases,
  ◌>>=◌, ◌>>◌, bind-eq-some, max64, max32, add64, sub64, mul64, add32, sub32, to_u32, sub64-eq-sub,
  sub32-eq-sub, Bytes, length, get_elem?, set, take, drop, replicate, All, length-append,
  length-take, length-drop, length-set, length-replicate, take-append-drop, take_cong, drop_cong,
  take-nil, drop-nil, take_zero, take_prefix, drop_prefix, take_all, drop_all, drop-drop, take-take,
  drop-take, take-add, take-drop-append, take-drop-take, drop-append_of_le, drop-append, not_le,
}
use kawa.Storage.Span.{Span, from, upto}
use kawa.Storage.Buffer
use kawa.Storage.Store.{Store, new_slice}
use kawa.Storage.Repr.{
  Block, Pair, StatusLine, Kind, BodySize, ParsingPhase, ParsingErrorKind, to_error,
}
use kawa.Storage.Kawa.{Kawa, push_block, is_error, is_terminated}
use kawa.Protocol.Nom.{IResult, Nom}
use kawa.Protocol.Primitives.{
  crlf, parse_request_line, parse_response_line, parse_header_or_cookie, parse_header,
  parse_single_crumb, parse_chunk_header,
}
use kawa.Protocol.Headers.{process_headers}

-- One round of the inner loop: it goes on with what is unparsed, or breaks, and says then whether
-- the headers need processing.
pub data Turn : Type 0 where
  next : Kawa → Span → Turn
  stop : Kawa → Span → Bool → Turn

abbrev pub buf_of : Kawa → Span
buf_of k = k.storage.buffer

abbrev pub pair_of : Kawa → Span → Span → Pair
pair_of k key val = record { key = new_slice (buf_of k) key; val = new_slice (buf_of k) val }

abbrev pub push_crumb : Kawa → Pair → Kawa
push_crumb k p = record k { detached = record (k.detached) { jar = k.detached.jar ++ (p ∷ []) } }

abbrev pub flags_of : Bool → Bool → Bool → Bool → Block
flags_of body chunk header stream =
    Block.flags
      (record { end_body = body; end_chunk = chunk; end_header = header; end_stream = stream })

abbrev pub in_phase : Kawa → ParsingPhase → Kawa
in_phase k phase = record k { parsing_phase = phase }

abbrev pub with_line : Kawa → StatusLine → Kawa
with_line k line = record k { detached = record (k.detached) { status_line = line } }

module _ (nom : Nom) where
  -- The error of `handle_error` and `handle_recovery_error`, at the input where parsing failed.
  unfoldable pub failed_at : Kawa → Span → Kawa
  failed_at k at =
      in_phase k
        (to_error k.parsing_phase (ParsingErrorKind.consuming (to_u32 (nom.offset (buf_of k) at))))

  -- A result that is an error breaks the loop (`handle_error`).
  unfoldable pub or_stop : {A : Type 0} → IResult A → Kawa → Span → (Span → A → Turn) → Turn
  unfolding failed_at
  or_stop (IResult.ok i a) k unparsed f = f i a
  or_stop IResult.incomplete k unparsed f = stop k unparsed false
  or_stop (IResult.error at) k unparsed f = stop (failed_at k at) unparsed false
  or_stop (IResult.failure at) k unparsed f = stop (failed_at k at) unparsed false

  -- After a line that is no header: the end of the headers, or an error at `primary`
  -- (`handle_recovery_error`).
  unfoldable pub recover : IResult Span → Kawa → Span → Span → (Span → Turn) → Turn
  unfolding failed_at
  recover (IResult.ok i a) k unparsed primary f = f i
  recover IResult.incomplete k unparsed primary f = stop k unparsed false
  recover (IResult.error at) k unparsed primary f = stop (failed_at k primary) unparsed false
  recover (IResult.failure at) k unparsed primary f = stop (failed_at k primary) unparsed false

  -- A result whose error may be the empty line that ends a list of headers or crumbs.
  unfoldable pub or_crlf :
      {A : Type 0} → IResult A → Kawa → Span → (Span → A → Turn) → (Span → Turn) → Turn
  unfolding recover crlf
  or_crlf (IResult.ok i a) k unparsed f end = f i a
  or_crlf IResult.incomplete k unparsed f end = stop k unparsed false
  or_crlf (IResult.error at) k unparsed f end = recover (crlf nom unparsed) k unparsed at end
  or_crlf (IResult.failure at) k unparsed f end = recover (crlf nom unparsed) k unparsed at end

  unfoldable pub turn_status_line : Kind → Kawa → Span → Turn
  unfolding or_stop push_block parse_request_line parse_response_line new_slice
  turn_status_line Kind.request k unparsed =
      or_stop (parse_request_line nom unparsed) k unparsed (λ i r.
        next
          (in_phase
            (push_block
              (with_line k (
                StatusLine.request (record {
                  version = r.2;
                  method = new_slice (buf_of k) r.0;
                  uri = new_slice (buf_of k) r.1;
                  authority = Store.empty;
                  path = Store.empty;
                })))
              Block.status_line)
            ParsingPhase.headers)
          i)
  turn_status_line Kind.response k unparsed =
      or_stop (parse_response_line nom unparsed) k unparsed (λ i r.
        next
          (in_phase
            (push_block
              (with_line k (
                StatusLine.response (record {
                  version = r.0;
                  code = r.2;
                  status = new_slice (buf_of k) r.1;
                  reason = new_slice (buf_of k) r.3;
                })))
              Block.status_line)
            ParsingPhase.headers)
          i)

  unfoldable pub header_or_cookies : Kawa → Span → Option (Span × Span) → Turn
  unfolding push_block new_slice
  header_or_cookies k i (some (key, val)) = next (push_block k (Block.header (pair_of k key val))) i
  header_or_cookies k i none =
      next (in_phase (push_block k Block.cookies) (ParsingPhase.cookies true)) i

  unfoldable pub turn_headers : Kawa → Span → Turn
  unfolding or_crlf header_or_cookies parse_header_or_cookie
  turn_headers k unparsed =
      or_crlf (parse_header_or_cookie nom unparsed) k unparsed (header_or_cookies k)
        (λ i. stop k i true)

  unfoldable pub turn_cookies : Bool → Kawa → Span → Turn
  unfolding or_crlf parse_single_crumb new_slice
  turn_cookies first k unparsed =
      or_crlf (parse_single_crumb nom unparsed first) k unparsed
        (λ i crumb.
          next (in_phase (push_crumb k (pair_of k crumb.0 crumb.1)) (ParsingPhase.cookies false)) i)
        (λ i. next (in_phase k ParsingPhase.headers) i)

  -- How much of the body is taken, and what is then still expected.
  unfoldable pub body_taken : BodySize → ℕ → ℕ → ℕ × ℕ
  body_taken BodySize.empty len expects = (len, expects)
  body_taken _ len expects = (min len expects, expects - min len expects)

  unfoldable pub turn_body : Kawa → Span → Turn
  unfolding body_taken push_block new_slice
  turn_body k unparsed =
      let (taken, expects) = body_taken k.body_size (length unparsed.bytes) k.expects in
      let k' =
        push_block (record k { expects = expects })
          (Block.chunk (new_slice (buf_of k) (upto unparsed taken))) in
      let k'' =
        if expects == 0
        then push_block (in_phase k' ParsingPhase.terminated) (flags_of true false false true)
        else k' in
      next k'' (from unparsed taken)

  unfoldable pub chunk_started : Kawa → Span → Span → ℕ → Turn
  unfolding push_block new_slice
  chunk_started k i size_hexa size =
      let k' = record k { expects = size; parsing_phase = ParsingPhase.chunks false } in
      if size == 0
      then next (in_phase (push_block k' (flags_of true false false false)) ParsingPhase.trailers) i
      else next (push_block k' (Block.chunk_header (new_slice (buf_of k) size_hexa))) i

  unfoldable pub chunk_data : Kawa → Span → Turn
  unfolding push_block new_slice
  chunk_data k unparsed =
      let taken = min (length unparsed.bytes) k.expects in
      let k' =
        push_block (record k { expects = k.expects - taken })
          (Block.chunk (new_slice (buf_of k) (upto unparsed taken))) in
      let k'' =
        if k.expects - taken == 0 then push_block k' (flags_of false true false false) else k' in
      next k'' (from unparsed taken)

  unfoldable pub turn_chunks : Bool → Kawa → Span → Turn
  unfolding or_stop chunk_started chunk_data parse_chunk_header
  turn_chunks first k unparsed =
      if k.expects == 0
      then or_stop (parse_chunk_header nom first unparsed) k unparsed
          (λ i size. chunk_started k i size.0 size.1)
      else chunk_data k unparsed

  unfoldable pub turn_trailers : Kawa → Span → Turn
  unfolding or_crlf parse_header push_block new_slice
  turn_trailers k unparsed =
      or_crlf (parse_header nom unparsed) k unparsed
        (λ i r. next (push_block k (Block.header (pair_of k r.0 r.1))) i)
        (λ i.
          stop (push_block (in_phase k ParsingPhase.terminated) (flags_of false false true true)) i
            false)

  unfoldable pub turn_in : ParsingPhase → Kawa → Span → Turn
  unfolding turn_status_line turn_headers turn_cookies turn_body turn_chunks turn_trailers
  turn_in ParsingPhase.status_line k unparsed = turn_status_line k.kind k unparsed
  turn_in ParsingPhase.headers k unparsed = turn_headers k unparsed
  turn_in (ParsingPhase.cookies first) k unparsed = turn_cookies first k unparsed
  turn_in ParsingPhase.body k unparsed = turn_body k unparsed
  turn_in (ParsingPhase.chunks first) k unparsed = turn_chunks first k unparsed
  turn_in ParsingPhase.trailers k unparsed = turn_trailers k unparsed
  turn_in ParsingPhase.terminated k unparsed = stop k unparsed false
  turn_in (ParsingPhase.error marker kind) k unparsed = stop k unparsed false

  unfoldable pub turn : Kawa → Span → Turn
  unfolding turn_in
  turn k unparsed = turn_in k.parsing_phase k unparsed

-- The trait `ParserCallbacks`: its method may change the Kawa. `NoCallbacks` changes nothing.
abbrev pub Callbacks : Type 0
Callbacks = Kawa → Kawa

abbrev pub no_callbacks : Callbacks
no_callbacks k = k

module _ (nom : Nom) where
  -- `while !unparsed_buf.is_empty()`: the state, what is unparsed, and `need_processing`; `none`
  -- when the fuel runs out.
  unfoldable pub turns : ℕ → Kawa → Span → Option (Kawa × Span × Bool)
  turns zero k unparsed = none
  turns (suc fuel) k unparsed = elim (length unparsed.bytes == 0) [
    | true ↦ some (k, unparsed, false)
    | false ↦ elim (turn nom k unparsed) [
      | next k' rest ↦ turns fuel k' rest
      | stop k' rest need ↦ some (k', rest, need)
    ]
  ]

  -- A turn takes a byte or leaves the state that took none, so twice the bytes are fuel enough.
  abbrev pub enough : Span → ℕ
  enough unparsed = 2 * length unparsed.bytes + 2

  -- The head follows what was parsed.
  abbrev pub moved_head : Kawa → Span → Kawa
  moved_head k unparsed = record k {
    storage = record (k.storage) { head = nom.offset (buf_of k) unparsed };
  }

  body_phase : Kawa → BodySize → Kawa
  body_phase k BodySize.chunked = in_phase k (ParsingPhase.chunks true)
  body_phase k BodySize.empty = in_phase (record k { expects = 1 }) ParsingPhase.body
  body_phase k (BodySize.length n) =
      if n == 0
      then in_phase k ParsingPhase.terminated
      else in_phase (record k { expects = n }) ParsingPhase.body

  -- Behind `process_headers`: the phase of the body, the callback, and the flags block.
  unfoldable pub start_body : Callbacks → Kawa → Kawa
  unfolding body_phase push_block is_terminated
  start_body on_headers k =
      let k' = on_headers (body_phase k k.body_size) in
      push_block k' (flags_of false false true (is_terminated k'))

  unfoldable pub parse_loop : ℕ → Callbacks → Kawa → Run Kawa
  parse_loop zero on_headers k = out_of_fuel
  parse_loop (suc fuel) on_headers k = elim (Buffer.unparsed_data k.storage) [
    | none ↦ panic
    | some unparsed ↦ elim (turns (enough unparsed) k unparsed) [
      | none ↦ out_of_fuel
      | some (k', rest, need) ↦ elim need [
        | false ↦ done (moved_head k' rest)
        | true ↦ elim (process_headers nom (moved_head k' rest)) [
          | none ↦ panic
          | some k'' ↦ elim (is_error k'') [
            | true ↦ done k''
            | false ↦ parse_loop fuel on_headers (start_body on_headers k'')
          ]
        ]
      ]
    ]
  ]

  -- Each round of the outer loop but the last takes the line that ends the headers.
  unfoldable pub parse : Callbacks → Kawa → Run Kawa
  unfolding parse_loop turns turn start_body process_headers
  parse on_headers k = parse_loop (length k.storage.buffer.bytes + 1) on_headers k
