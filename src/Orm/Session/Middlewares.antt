-- ===== src/Orm/Session/Middlewares.antt =====
-- orm/homework3/core.go: the order in which `exec` and `get` run the middlewares.
use go_study.Prelude.{List, Option, ◌≡◌, nest, apply_all-reverse}
use go_study.Orm.Output.{Out}
use go_study.Orm.Session.{Handler, Reader, exec_handler, exec, get_handler, get}

module _ {S A V X Rows : Type 0} (ms : List (Handler S A V X → Handler S A V X))
    (exec_context : Out A → S → S × (Option V × Option X)) (reader : Reader S A V X Rows) where
  -- `exec` and `get` run the middlewares in the order in which they are given, the first one
  -- outermost, around the handler that builds the query and hands it to the session.
  pub exec-nest :
      (exec ms exec_context ≡ nest ms (exec_handler exec_context))
      × (get reader ms ≡ nest ms (get_handler reader))
  unfolding exec get
  exec-nest =
      (apply_all-reverse ms (exec_handler exec_context), apply_all-reverse ms (get_handler reader))
