-- ===== src/Protocol/Parser/Started.antt =====
-- `parse` behind the headers: what the start of the body changes.
use kawa.Prelude.{◌≡◌, refl, ap, inl, inr, true, false, [], ◌∷◌, ◌++◌, ◌==◌, Bool-cases}
use kawa.Storage.Repr.{Block, Flags, BodySize, ParsingPhase}
use kawa.Storage.Kawa.{Kawa, push_block, is_error, is_terminated}
use kawa.Protocol.Nom.{Nom}
use kawa.Protocol.Parser.{no_callbacks, body_phase, start_body}
use kawa.Protocol.Parser.Safe.{late}

abbrev Kept : Kawa → Kawa → Type 0
Kept k j =
    (j.storage ≡ k.storage)
    × (j.detached ≡ k.detached)
    × (j.out ≡ k.out)
    × (j.blocks ≡ k.blocks)
    × (late j.parsing_phase ≡ true)

body_phase-Kept : (nom : Nom) (k : Kawa) (size : BodySize) → Kept k (body_phase nom k size)
unfolding body_phase
body_phase-Kept nom k BodySize.empty = (refl, refl, refl, refl, refl)
body_phase-Kept nom k BodySize.chunked = (refl, refl, refl, refl, refl)
body_phase-Kept nom k (BodySize.length n) = elim (Bool-cases (n == 0)) [
  | inl z ↦ rw z (refl, refl, refl, refl, refl)
  | inr z ↦ rw z (refl, refl, refl, refl, refl)
]

-- It pushes a flags block and goes on to a phase behind the headers.
abbrev pub Starts : Kawa → Kawa → Type 0
Starts k j =
    (j.storage ≡ k.storage)
    × (j.detached ≡ k.detached)
    × (j.out ≡ k.out)
    × (late j.parsing_phase ≡ true)
    × (f : Flags) × (j.blocks ≡ k.blocks ++ (Block.flags f ∷ []))

pub start_body-Starts : (nom : Nom) (k : Kawa) → Starts k (start_body nom no_callbacks k)
unfolding start_body push_block
start_body-Starts nom k =
    let (s, d, o, b, l) = body_phase-Kept nom k k.body_size in
    let ended = is_terminated (body_phase nom k k.body_size) in
    let flags : Flags = record {
      end_body = false;
      end_chunk = false;
      end_header = true;
      end_stream = ended;
    } in
    (s, d, o, l, flags, ap (λ bs. bs ++ (Block.flags flags ∷ [])) b)

-- An error is behind the headers.
pub error_late : (k : Kawa) → is_error k ≡ true → late k.parsing_phase ≡ true
unfolding is_error
error_late k e = in_phase k.parsing_phase e
  where
    in_phase :
        (phase : ParsingPhase)
        → is_error (record k { parsing_phase = phase }) ≡ true
        → late phase ≡ true
    in_phase ParsingPhase.status_line e = cc
    in_phase ParsingPhase.headers e = cc
    in_phase (ParsingPhase.cookies first) e = cc
    in_phase ParsingPhase.body e = refl
    in_phase (ParsingPhase.chunks first) e = refl
    in_phase ParsingPhase.trailers e = refl
    in_phase ParsingPhase.terminated e = refl
    in_phase (ParsingPhase.error marker kind) e = refl
