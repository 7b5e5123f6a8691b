-- ===== src/Codegen/Python/Tests.antt =====
-- Runs of python/names.rs on a small dictionary.
use refix.Dictionary.Tests.{parties_name, party_dictionary}
use refix.Codegen.Python.Names.{PythonNames, no_names, new_names}
use refix.Codegen.Python.Classes.{HaveClasses, new_names-HaveClasses}
use refix.Dictionary.Checks.{lookup}
use refix.Base.Result.{ok}
use refix.Dictionary.Spec.{MemberContext}
use refix.Base.Text.{codes}
use refix.Base.{◌≡◌, refl, [], ◌∷◌}

abbrev python_names : PythonNames
python_names = record no_names {
  properties = (448, codes "b") ∷ (10, codes "d") ∷ (8, codes "c") ∷ [];
  groups =
      (
        MemberContext.group (codes "A") (MemberContext.component parties_name),
        record { class_name = codes "P"; property = codes "p" },
      )
      ∷ [];
}

new_names-of_python : new_names party_dictionary [] ≡ ok (python_names, [])
unfolding new_names lookup
new_names-of_python = refl

new_names-HaveClasses_example : HaveClasses party_dictionary python_names
new_names-HaveClasses_example =
    new_names-HaveClasses party_dictionary [] [] python_names new_names-of_python
