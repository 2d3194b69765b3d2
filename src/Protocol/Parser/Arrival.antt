-- ===== src/Protocol/Parser/Arrival.antt =====
-- A body that arrives in pieces: each is read into the buffer (`fill`), and parsed.
use kawa.Prelude.{
  Run, done, then_run, ℕ, ◌+◌, ◌-◌, ◌≤◌, ◌<◌, min, ◌≡◌, refl, ap, ◌∙◌, inl, inr, Bool, true, List,
  [], ◌∷◌, arith, leb, ◌==◌, lt→leb, Bool-cases, add64, sub64, length,
}
use kawa.Storage.Buffer
use kawa.Storage.Buffer.{Buffer, fill}
use kawa.Storage.Repr.{BodySize, ParsingPhase}
use kawa.Storage.Kawa.{Kawa, is_terminated}
use kawa.Protocol.Nom.{Nom}
use kawa.Protocol.Nom.Parts.{TakesParts}
use kawa.Protocol.Parser.{no_callbacks, parse}
use kawa.Protocol.Parser.Safe.{IsMemory}
use kawa.Protocol.Parser.Body.{body_read, body_parsed, parse-idle}

abbrev pub total : List ℕ → ℕ
total [] = 0
total (c ∷ cs) = c + total cs

-- `c` bytes are there.
abbrev pub filled : Kawa → ℕ → Kawa
filled k c = record k { storage = (fill k.storage c).0 }

-- `fill` and `parse` for each piece.
abbrev pub arrive : Nom → List ℕ → Kawa → Run Kawa
arrive nom [] k = done k
arrive nom (c ∷ cs) k = then_run (parse nom no_callbacks (filled k c)) (arrive nom cs)

-- The same, where they fit.
abbrev longer : Kawa → ℕ → Kawa
longer k c = record k { storage = record (k.storage) { end = k.storage.end + c } }

longer-IsMemory :
    (k : Kawa) (c : ℕ)
    → IsMemory k.storage
    → k.storage.end + c ≤ length k.storage.buffer.bytes
    → IsMemory (longer k c).storage
longer-IsMemory k c m h = record {
  valid = record {
    placed = m.valid.placed;
    start_head = m.valid.start_head;
    head_end = omega (arith, m.valid.head_end);
    end_capacity = h;
  };
  small = m.small;
  page = m.page;
}

filled-eq-longer :
    (k : Kawa) (c : ℕ)
    → IsMemory k.storage
    → k.storage.end + c ≤ length k.storage.buffer.bytes
    → filled k c ≡ longer k c
unfolding fill Buffer.available_space
filled-eq-longer k c m h = ap (λ e. record k { storage = record (k.storage) { end = e } }) end
  where
    end :
        add64 k.storage.end (min c (sub64 (length k.storage.buffer.bytes) k.storage.end))
        ≡ k.storage.end + c
    end = omega (arith, m.valid.end_capacity, m.small)

-- What the pieces leave of a body at `k`.
abbrev Arrives : Nom → List ℕ → Kawa → Bool → ℕ → Type 0
Arrives nom cs k ended at =
    (k' : Kawa) × (arrive nom cs k ≡ done k') × (is_terminated k' ≡ ended) × (k'.storage.head ≡ at)

-- A piece that is parsed, and the rest.
first_piece :
    (nom : Nom) (c : ℕ) (cs : List ℕ) (k j : Kawa) (ended : Bool) (at : ℕ)
    → IsMemory k.storage
    → k.storage.end + c ≤ length k.storage.buffer.bytes
    → parse nom no_callbacks (longer k c) ≡ done j
    → Arrives nom cs j ended at
    → Arrives nom (c ∷ cs) k ended at
first_piece nom c cs k j ended at m h e (k', run, is, head) =
    (k', rw (filled-eq-longer k c m h, e) run, is, head)

Arrives-as :
    (nom : Nom) (cs : List ℕ) (k : Kawa) (a b : Bool) (x y : ℕ)
    → a ≡ b
    → x ≡ y
    → Arrives nom cs k a x
    → Arrives nom cs k b y
Arrives-as nom cs k a b x y e f (k', run, is, head) = (k', run, is ∙ e, head ∙ f)

module _ (nom : Nom) (parts : TakesParts nom) where
  arrive-terminated :
      (cs : List ℕ) (k : Kawa)
      → IsMemory k.storage
      → k.parsing_phase ≡ ParsingPhase.terminated
      → k.storage.end + total cs ≤ length k.storage.buffer.bytes
      → Arrives nom cs k true k.storage.head
  unfolding is_terminated
  arrive-terminated [] k m e h = (k, refl, rw e refl, refl)
  arrive-terminated (c ∷ cs) k m e h =
      let m' : IsMemory (longer k c).storage = longer-IsMemory k c m (omega arith) in
      first_piece nom c cs k (longer k c) true k.storage.head m (omega arith)
        (parse-idle nom parts (longer k c) m' (inr e))
        (arrive-terminated cs (longer k c) m' e (omega arith))

  -- After the piece that ends the body, or one that does not.
  after_piece :
      (t : ℕ) (k : Kawa)
      → IsMemory k.storage
      → t ≤ k.storage.end - k.storage.head
      → IsMemory (body_read k t).storage
  after_piece t k m h = record {
    valid = record {
      placed = m.valid.placed;
      start_head = omega (arith, m.valid.start_head);
      head_end = omega (arith, m.valid.head_end);
      end_capacity = m.valid.end_capacity;
    };
    small = m.small;
    page = m.page;
  }

  -- A body that expects `n > 0` bytes, of which none is unparsed, and that then arrives in pieces
  -- which fit in the buffer, is terminated exactly when the pieces together have `n` bytes, however
  -- they are cut: `parse` returns after every piece, and `head` has moved by as many bytes as came,
  -- `n` at the most.
  pub body_arrives :
      (cs : List ℕ) (k : Kawa) (n : ℕ)
      → IsMemory k.storage
      → k.parsing_phase ≡ ParsingPhase.body
      → k.body_size ≡ BodySize.length n
      → 0 < k.expects
      → k.storage.head ≡ k.storage.end
      → k.storage.end + total cs ≤ length k.storage.buffer.bytes
      → (k' : Kawa) × (arrive nom cs k ≡ done k')
        × (is_terminated k' ≡ leb k.expects (total cs))
        × (k'.storage.head ≡ k.storage.head + min k.expects (total cs))
  unfolding is_terminated
  body_arrives [] k n m e s p at h = (k, refl, rw (e, lt→leb k.expects 0 p) refl, omega arith)
  body_arrives (c ∷ cs) k n m e s p at h = elim (Bool-cases (c == 0)) [
    | inl z ↦
        first_piece nom c cs k (longer k c) _ _ m (omega arith)
          (parse-idle nom parts (longer k c) m' (inl (ground arith)))
          (Arrives-as nom cs (longer k c) _ _ _ _ (ground arith) (ground arith)
            (body_arrives cs (longer k c) n m' e s p (ground arith) (omega arith)))
    | inr z ↦
        first_piece nom c cs k read _ _ m (omega arith)
          (body_parsed nom parts (longer k c) m' n e s (ground arith))
          (elim (Bool-cases (k.expects - t == 0)) [
            | inl y ↦
                Arrives-as nom cs read _ _ _ _ (ground arith) (ground arith)
                  (arrive-terminated cs read read-IsMemory (rw y refl) (omega arith))
            | inr y ↦ Arrives-as nom cs read _ _ _ _ (ground arith) (ground arith) (
                body_arrives cs read n read-IsMemory (rw y refl) s (ground arith) (ground arith)
                  (omega arith))
          ])
  ]
    where
      m' : IsMemory (longer k c).storage
      m' = longer-IsMemory k c m (omega arith)

      t : ℕ
      t = min (k.storage.end + c - k.storage.head) k.expects

      read : Kawa
      read = body_read (longer k c) t

      read-IsMemory : IsMemory read.storage
      read-IsMemory = after_piece t (longer k c) m' (omega arith)
