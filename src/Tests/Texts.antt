-- ===== src/Tests/Texts.antt =====
-- A message as text: `debug` applied to a response.
use kawa.Prelude.{codes, ◌<◌, ◌≡◌, refl, ◌↔◌, true, false, some, [], ◌∷◌, ◌++◌, arith, All}
use kawa.Storage.Store.{Store}
use kawa.Storage.Buffer.{capacity}
use kawa.Storage.Repr.{Block}
use kawa.Storage.Kawa
use kawa.Storage.Kawa.{Kawa}
use kawa.Storage.Debug.{Text, Format, debug, flags_text}
use kawa.Storage.Debug.Shown.{
  IsSized, IsReadable, shown, line_shown, each, pair_shown, block_shown, out_shown,
}
use kawa.Storage.Debug.Panics.{debug_returns}
use kawa.Tests.Outputs.{parsed}

abbrev format : Format
format = record {
  from_utf8 = some;
  number = λ n. n ∷ [];
  quoted = λ t. b'"' ∷ (t ++ (b'"' ∷ []));
  kind = λ k. codes "Response";
  phase = λ p. codes "Terminated";
  body_size = λ s. codes "Empty";
  version = λ v. codes "V11";
}

-- The response with a body that it owns.
abbrev owning : Kawa
owning = record (parsed) { blocks = Block.chunk (Store.alloc (codes "body") 2) ∷ parsed.blocks }

owning-IsSized : All IsSized (shown owning)
unfolding shown line_shown each pair_shown block_shown out_shown IsSized Kawa.new
owning-IsSized = (tt, (tt, (tt, (tt, ((omega arith, omega arith), tt)))))

debug_returns_example :
    ((0 < capacity owning.storage) × All IsReadable (shown owning))
    ↔ ((text : Text) × (debug format owning (codes "  ") ≡ some text))
debug_returns_example = debug_returns format owning (codes "  ") owning-IsSized

flags_test :
    flags_text
      (record { end_body = true; end_chunk = false; end_header = true; end_stream = false })
    ≡ some (codes "Flags (BODY|HEADER)")
unfolding flags_text
flags_test = refl
