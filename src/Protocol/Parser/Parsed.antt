-- ===== src/Protocol/Parser/Parsed.antt =====
-- What `parse` leaves of the buffer: the head alone moves.
use kawa.Prelude.{
  ◌+◌, ◌-◌, ◌≤◌, ◌≡◌, refl, ap, ◌∙◌, some, arith, length, take, drop, length-take, length-drop,
}
use kawa.Storage.Span.{Span, from, IsPart, IsPart-trans, IsPart-bounds, sub_span-eq-some}
use kawa.Protocol.Primitives.Parts.{cut_parts}
use kawa.Storage.Buffer
use kawa.Storage.Buffer.{Buffer}
use kawa.Storage.Buffer.Valid.{IsValid}
use kawa.Protocol.Nom.{Nom}
use kawa.Protocol.Nom.Parts.{TakesParts}
use kawa.Protocol.Parser.Safe.{IsMemory}

-- A buffer that parsing may leave of `b`: the head alone has moved, forwards.
pub record IsParsed (b c : Buffer) : Type 0 where
  pub memory : IsMemory c
  pub same : c ≡ record b { head = c.head }
  pub forwards : b.head ≤ c.head

unfoldable pub unparsed_of : Buffer → Span
unparsed_of b = record {
  addr = b.buffer.addr + b.head;
  bytes = take (b.end - b.head) (drop b.head b.buffer.bytes);
}

pub unparsed_of-IsPart : (b : Buffer) → IsValid b → IsPart b.buffer (unparsed_of b)
unfolding unparsed_of
unparsed_of-IsPart b v =
    IsPart-trans (cut_parts b.buffer b.head (omega (arith, v.head_end, v.end_capacity))).0
      (cut_parts (from b.buffer b.head) (b.end - b.head)
        (omega (arith, v.head_end, v.end_capacity, length-drop {0} b.head b.buffer.bytes))).1

pub length-unparsed : (b : Buffer) → IsValid b → length (unparsed_of b).bytes ≡ b.end - b.head
unfolding unparsed_of
length-unparsed b v = omega (
  arith,
  v.head_end,
  v.end_capacity,
  length-drop {0} b.head b.buffer.bytes,
  length-take {0} (b.end - b.head) (drop b.head b.buffer.bytes),
)

module _ (nom : Nom) (parts : TakesParts nom) where
  pub moved-IsParsed :
      (b : Buffer) (r : Span)
      → IsMemory b
      → IsPart (unparsed_of b) r
      → IsParsed b (record b { head = nom.offset b.buffer r })
  unfolding unparsed_of
  moved-IsParsed b r m p =
      let v = m.valid in
      let e = parts.offset b.buffer r (IsPart-trans (unparsed_of-IsPart b v) p) in
      record {
        memory = record {
          valid = record {
            placed = v.placed;
            start_head =
                omega (arith, e, IsPart-bounds p, length-unparsed b v, v.start_head, v.head_end);
            head_end =
                omega (arith, e, IsPart-bounds p, length-unparsed b v, v.start_head, v.head_end);
            end_capacity = v.end_capacity;
          };
          small = m.small;
          page = m.page;
        };
        same = refl;
        forwards = omega (arith, e, IsPart-bounds p, length-unparsed b v, v.start_head, v.head_end);
      }

pub IsParsed-trans : {a b c : Buffer} → IsParsed a b → IsParsed b c → IsParsed a c
IsParsed-trans {a} {b} {c} p q = record {
  memory = q.memory;
  same = q.same ∙ ap (λ (x : Buffer). record x { head = c.head }) p.same;
  forwards = omega (arith, p.forwards, q.forwards);
}

pub unparsed_data_lem : (b : Buffer) → IsValid b → Buffer.unparsed_data b ≡ some (unparsed_of b)
unfolding Buffer.unparsed_data unparsed_of
unparsed_data_lem b v = sub_span-eq-some b.buffer b.head b.end v.head_end v.end_capacity
