-- ===== src/Mapper/Samples.antt =====
-- An expression engine for the tests.
use gosk.Prelude.{false, String, some, none}
use gosk.Prelude.Assoc.{lookup}
use gosk.Message.Samples.{sample, decoder}
use gosk.Mapper.Expressions.{Engine, constant}

-- The expression is the name of a value.
abbrev pub naming : Engine sample
naming = record {
  Program = String;
  compile = λ text env. some text;
  execute = λ text env. elim (lookup text env) [ some (constant v) ↦ some v | _ ↦ none ];
  is_map = λ o. false;
  decoder = decoder;
}
