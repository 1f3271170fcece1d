-- ===== src/Store/Format/Sizes.antt =====
-- What a supported storage guarantees about the sizes of its format.
use wasefire.Base.{ℕ, ◌+◌, ◌-◌, ◌*◌, ◌%◌, ◌≤◌, ◌<◌, ◌≡◌, ap₂, some, arith}
use wasefire.Store.Storage.{Geometry}
use wasefire.Store.Format.{
  Format, new, virt_page_size, max_value_len, max_prefix_len, virt_size, window_size,
  total_capacity,
}

-- The invariant that the fields of `Format` document.
pub record IsSupported (f : Format) : Type 0 where
  pub aligned : f.page_size % 4 ≡ 0
  pub page_min : 32 ≤ f.page_size
  pub page_max : f.page_size ≤ 4096
  pub pages_min : 3 ≤ f.num_pages
  pub pages_max : f.num_pages ≤ 64
  pub erases_max : f.max_page_erases ≤ 65535

-- `Format::new` returns only formats within the documented bounds.
new-IsSupported : (s : Geometry) (f : Format) → new s ≡ some f → IsSupported f
unfolding new
new-IsSupported s f e = ground arith

-- The documented bounds: Q, the size of a virtual page, the longest value, M, the longest prefix,
-- V, the virtual size, W, the window, and C, the capacity. The sums show that no subtraction in
-- the code that computes them wraps.
pub record SizeBounds (f : Format) : Type 0 where
  pub virt_page_min : 6 ≤ virt_page_size f
  pub virt_page_max : virt_page_size f ≤ 1022
  pub value_min : 20 ≤ max_value_len f
  pub value_max : max_value_len f ≤ 1023
  pub prefix_min : 5 ≤ max_prefix_len f
  pub prefix_max : max_prefix_len f < virt_page_size f
  pub virt_sum : virt_size f + max_prefix_len f ≡ (f.num_pages - 1) * (virt_page_size f - 1)
  pub window_sum : window_size f ≡ virt_size f + (f.num_pages - 1)
  pub capacity_sum : total_capacity f + f.num_pages ≡ virt_size f
  pub capacity_min : (f.num_pages - 2) * (virt_page_size f - 2) ≤ total_capacity f + 2

page_bounds :
    (f : Format)
    → IsSupported f
    → (6 ≤ virt_page_size f)
      × (virt_page_size f ≤ 1022)
      × (20 ≤ max_value_len f)
      × (max_value_len f ≤ 1023)
      × (5 ≤ max_prefix_len f)
      × (max_prefix_len f + 1 ≤ virt_page_size f)
page_bounds f s = omega arith

-- `n` and `q` count pages and words above the least that a format has.
capacity_bounds :
    (n q m : ℕ)
    → m ≤ q + 5
    → ((n + 2) * (q + 5) - m + m ≡ (n + 2) * (q + 5))
      × ((n + 2) * (q + 6) - m ≡ (n + 2) * (q + 5) - m + (n + 2))
      × ((n + 2) * (q + 5) - m - (n + 3) + (n + 3) ≡ (n + 2) * (q + 5) - m)
      × ((n + 1) * (q + 4) ≤ (n + 2) * (q + 5) - m - (n + 3) + 2)
capacity_bounds n q m h = omega arith

capacity_sums :
    (n q m : ℕ)
    → 3 ≤ n
    → 6 ≤ q
    → m + 1 ≤ q
    → ((n - 1) * (q - 1) - m + m ≡ (n - 1) * (q - 1))
      × ((n - 1) * q - m ≡ (n - 1) * (q - 1) - m + (n - 1))
      × ((n - 1) * (q - 1) - m - n + n ≡ (n - 1) * (q - 1) - m)
      × ((n - 2) * (q - 2) ≤ (n - 1) * (q - 1) - m - n + 2)
capacity_sums n q m hn hq hm =
    let big : (n - 1) * (q - 1) ≡ (n - 3 + 2) * (q - 6 + 5) = ap₂ ◌*◌ (omega arith) (omega arith) in
    let whole : (n - 1) * q ≡ (n - 3 + 2) * (q - 6 + 6) = ap₂ ◌*◌ (omega arith) (omega arith) in
    let small : (n - 2) * (q - 2) ≡ (n - 3 + 1) * (q - 6 + 4) =
      ap₂ ◌*◌ (omega arith) (omega arith) in
    omega (arith, big, whole, small, capacity_bounds (n - 3) (q - 6) m)

-- A supported format has all the bounds that its methods document.
pub sizes : (f : Format) → IsSupported f → SizeBounds f
sizes f s =
    let page = page_bounds f s in
    let sums =
      capacity_sums f.num_pages (virt_page_size f) (max_prefix_len f) s.pages_min page.0 page.5 in
    record {
      virt_page_min = page.0;
      virt_page_max = page.1;
      value_min = page.2;
      value_max = page.3;
      prefix_min = page.4;
      prefix_max = omega (arith, page.5);
      virt_sum = sums.0;
      window_sum = sums.1;
      capacity_sum = sums.2;
      capacity_min = sums.3;
    }
