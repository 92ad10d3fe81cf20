-- ===== src/Ui/Worker/Texts.antt =====
-- Texts for JSON, for concrete runs of the worker.
use bot_cock_pit.Prelude.{ℕ, false, [], ◌∷◌, ◌++◌}
use bot_cock_pit.Text.{Text, codes, contains}
use bot_cock_pit.Ui.Worker.{Qt}

-- An object is its text, and a value is one too.
abbrev pub texts : Qt
texts = record {
  Object = Text;
  Value = Text;
  Number = ℕ;
  parse = λ bytes. bytes;
  compact = λ fields. codes "{}";
  of_text = λ s. s;
  of_bool = λ b. codes "true";
  of_int = λ n. n ∷ [];
  of_number = λ n. n ∷ [];
  contains = λ obj key. contains key obj;
  value = λ obj key. [];
  insert = λ obj key v. obj ++ key ++ v;
  is_null = λ v. false;
  to_bool = λ v. false;
  to_text = λ v. v;
  to_list = λ v. [];
}
