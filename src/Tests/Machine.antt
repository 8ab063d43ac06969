-- ===== src/Tests/Machine.antt =====
-- A platform that the program can run on, and worlds in which the last process started ends first.
use disnix.Prelude.{
  ℕ, suc, List, [], ◌∷◌, Option, none, some, Bool, true, false, ◌==◌, if◌then◌else◌,
}
use disnix.Order.{le_trans}
use disnix.Platform.{Platform, IsPlatform}
use disnix.Platform.Posix.{World, Exit, ok}
use disnix.Tests.Strings.{strcmp, strcmp-IsOrder}
use disnix.Tests.Sorting.{
  insertion_sort, linear_search, insertion_sort-perm, linear_search_found, linear_search_missing,
  insertion_sort-IsSorted,
}

abbrev pub platform : Platform
platform = record {
  xml_strcmp = strcmp;
  bsearch = λ A cmp key l. linear_search cmp key l;
  g_ptr_array_sort = λ A cmp l. insertion_sort cmp l;
  generate_env_vars = λ container. [];
}

pub platform-IsPlatform : IsPlatform platform
platform-IsPlatform = record {
  strcmp_order = strcmp-IsOrder;
  bsearch_found = λ A cmp key l i order sorted e. linear_search_found cmp key l i e;
  bsearch_missing = λ A cmp key l order sorted e. linear_search_missing cmp key l e;
  sort_perm = λ A cmp l. insertion_sort-perm cmp l;
  sort_sorted = λ A B cmp f l order.
      insertion_sort-IsSorted (λ x y. cmp (f x) (f y)) (λ x y z. le_trans order (f x) (f y) (f z))
        (λ x y. order.swapped (f x) (f y)) l;
}

-- The last child that was started ends first, with this result.
abbrev pub exits_with : Bool → List ℕ → Option Exit
exits_with result [] = none
exits_with result (pid ∷ rest) = some (record { pid = pid; status = ok; result = result })

-- Every process succeeds, and nobody interrupts.
abbrev pub calm : World
calm = record {
  fork = λ tick children. some (suc tick);
  wait = λ tick children. exits_with true children;
  interrupted = λ tick. false;
}

-- The process that is waited for at one tick fails.
abbrev pub failing_at : ℕ → World
failing_at n = record {
  fork = λ tick children. some (suc tick);
  wait = λ tick children. exits_with (if tick == n then false else true) children;
  interrupted = λ tick. false;
}
