-- ===== src/Mime/Tables/Low.antt =====
-- The bit sorting tables of mime_io.c, as the source lists them: 6.60 to 15.85 kbit/s, and SID.
use talk2text.Prelude.{ℕ, List, [], ◌∷◌}

unfoldable pub sort_660 : List ℕ
sort_660 =
    0 ∷ 5 ∷ 6 ∷ 7 ∷ 61 ∷ 84 ∷ 107 ∷ 130 ∷ 62 ∷ 85 ∷ 8 ∷ 4 ∷ 37 ∷ 38 ∷ 39 ∷ 40 ∷ 58 ∷ 81 ∷ 104 ∷ 127
    ∷ 60 ∷ 83 ∷ 106 ∷ 129 ∷ 108 ∷ 131 ∷ 128 ∷ 41 ∷ 42 ∷ 80 ∷ 126 ∷ 1 ∷ 3 ∷ 57 ∷ 103 ∷ 82 ∷ 105 ∷ 59
    ∷ 2 ∷ 63 ∷ 109 ∷ 110 ∷ 86 ∷ 19 ∷ 22 ∷ 23 ∷ 64 ∷ 87 ∷ 18 ∷ 20 ∷ 21 ∷ 17 ∷ 13 ∷ 88 ∷ 43 ∷ 89 ∷ 65
    ∷ 111 ∷ 14 ∷ 24 ∷ 25 ∷ 26 ∷ 27 ∷ 28 ∷ 15 ∷ 16 ∷ 44 ∷ 90 ∷ 66 ∷ 112 ∷ 9 ∷ 11 ∷ 10 ∷ 12 ∷ 67 ∷ 113
    ∷ 29 ∷ 30 ∷ 31 ∷ 32 ∷ 34 ∷ 33 ∷ 35 ∷ 36 ∷ 45 ∷ 51 ∷ 68 ∷ 74 ∷ 91 ∷ 97 ∷ 114 ∷ 120 ∷ 46 ∷ 69 ∷ 92
    ∷ 115 ∷ 52 ∷ 75 ∷ 98 ∷ 121 ∷ 47 ∷ 70 ∷ 93 ∷ 116 ∷ 53 ∷ 76 ∷ 99 ∷ 122 ∷ 48 ∷ 71 ∷ 94 ∷ 117 ∷ 54
    ∷ 77 ∷ 100 ∷ 123 ∷ 49 ∷ 72 ∷ 95 ∷ 118 ∷ 55 ∷ 78 ∷ 101 ∷ 124 ∷ 50 ∷ 73 ∷ 96 ∷ 119 ∷ 56 ∷ 79 ∷ 102
    ∷ 125 ∷ []

unfoldable pub sort_885 : List ℕ
sort_885 =
    0 ∷ 4 ∷ 6 ∷ 7 ∷ 5 ∷ 3 ∷ 47 ∷ 48 ∷ 49 ∷ 112 ∷ 113 ∷ 114 ∷ 75 ∷ 106 ∷ 140 ∷ 171 ∷ 80 ∷ 111 ∷ 145
    ∷ 176 ∷ 77 ∷ 108 ∷ 142 ∷ 173 ∷ 78 ∷ 109 ∷ 143 ∷ 174 ∷ 79 ∷ 110 ∷ 144 ∷ 175 ∷ 76 ∷ 107 ∷ 141
    ∷ 172 ∷ 50 ∷ 115 ∷ 51 ∷ 2 ∷ 1 ∷ 81 ∷ 116 ∷ 146 ∷ 19 ∷ 21 ∷ 12 ∷ 17 ∷ 18 ∷ 20 ∷ 16 ∷ 25 ∷ 13 ∷ 10
    ∷ 14 ∷ 24 ∷ 23 ∷ 22 ∷ 26 ∷ 8 ∷ 15 ∷ 52 ∷ 117 ∷ 31 ∷ 82 ∷ 147 ∷ 9 ∷ 33 ∷ 11 ∷ 83 ∷ 148 ∷ 53 ∷ 118
    ∷ 28 ∷ 27 ∷ 84 ∷ 149 ∷ 34 ∷ 35 ∷ 29 ∷ 46 ∷ 32 ∷ 30 ∷ 54 ∷ 119 ∷ 37 ∷ 36 ∷ 39 ∷ 38 ∷ 40 ∷ 85
    ∷ 150 ∷ 41 ∷ 42 ∷ 43 ∷ 44 ∷ 45 ∷ 55 ∷ 60 ∷ 65 ∷ 70 ∷ 86 ∷ 91 ∷ 96 ∷ 101 ∷ 120 ∷ 125 ∷ 130 ∷ 135
    ∷ 151 ∷ 156 ∷ 161 ∷ 166 ∷ 56 ∷ 87 ∷ 121 ∷ 152 ∷ 61 ∷ 92 ∷ 126 ∷ 157 ∷ 66 ∷ 97 ∷ 131 ∷ 162 ∷ 71
    ∷ 102 ∷ 136 ∷ 167 ∷ 57 ∷ 88 ∷ 122 ∷ 153 ∷ 62 ∷ 93 ∷ 127 ∷ 158 ∷ 67 ∷ 98 ∷ 132 ∷ 163 ∷ 72 ∷ 103
    ∷ 137 ∷ 168 ∷ 58 ∷ 89 ∷ 123 ∷ 154 ∷ 63 ∷ 94 ∷ 128 ∷ 159 ∷ 68 ∷ 99 ∷ 133 ∷ 164 ∷ 73 ∷ 104 ∷ 138
    ∷ 169 ∷ 59 ∷ 90 ∷ 124 ∷ 155 ∷ 64 ∷ 95 ∷ 129 ∷ 160 ∷ 69 ∷ 100 ∷ 134 ∷ 165 ∷ 74 ∷ 105 ∷ 139 ∷ 170
    ∷ []

unfoldable pub sort_1265 : List ℕ
sort_1265 =
    0 ∷ 4 ∷ 6 ∷ 93 ∷ 143 ∷ 196 ∷ 246 ∷ 7 ∷ 5 ∷ 3 ∷ 47 ∷ 48 ∷ 49 ∷ 50 ∷ 51 ∷ 150 ∷ 151 ∷ 152 ∷ 153
    ∷ 154 ∷ 94 ∷ 144 ∷ 197 ∷ 247 ∷ 99 ∷ 149 ∷ 202 ∷ 252 ∷ 96 ∷ 146 ∷ 199 ∷ 249 ∷ 97 ∷ 147 ∷ 200
    ∷ 250 ∷ 100 ∷ 203 ∷ 98 ∷ 148 ∷ 201 ∷ 251 ∷ 95 ∷ 145 ∷ 198 ∷ 248 ∷ 52 ∷ 2 ∷ 1 ∷ 101 ∷ 204 ∷ 155
    ∷ 19 ∷ 21 ∷ 12 ∷ 17 ∷ 18 ∷ 20 ∷ 16 ∷ 25 ∷ 13 ∷ 10 ∷ 14 ∷ 24 ∷ 23 ∷ 22 ∷ 26 ∷ 8 ∷ 15 ∷ 53 ∷ 156
    ∷ 31 ∷ 102 ∷ 205 ∷ 9 ∷ 33 ∷ 11 ∷ 103 ∷ 206 ∷ 54 ∷ 157 ∷ 28 ∷ 27 ∷ 104 ∷ 207 ∷ 34 ∷ 35 ∷ 29 ∷ 46
    ∷ 32 ∷ 30 ∷ 55 ∷ 158 ∷ 37 ∷ 36 ∷ 39 ∷ 38 ∷ 40 ∷ 105 ∷ 208 ∷ 41 ∷ 42 ∷ 43 ∷ 44 ∷ 45 ∷ 56 ∷ 106
    ∷ 159 ∷ 209 ∷ 57 ∷ 66 ∷ 75 ∷ 84 ∷ 107 ∷ 116 ∷ 125 ∷ 134 ∷ 160 ∷ 169 ∷ 178 ∷ 187 ∷ 210 ∷ 219
    ∷ 228 ∷ 237 ∷ 58 ∷ 108 ∷ 161 ∷ 211 ∷ 62 ∷ 112 ∷ 165 ∷ 215 ∷ 67 ∷ 117 ∷ 170 ∷ 220 ∷ 71 ∷ 121
    ∷ 174 ∷ 224 ∷ 76 ∷ 126 ∷ 179 ∷ 229 ∷ 80 ∷ 130 ∷ 183 ∷ 233 ∷ 85 ∷ 135 ∷ 188 ∷ 238 ∷ 89 ∷ 139
    ∷ 192 ∷ 242 ∷ 59 ∷ 109 ∷ 162 ∷ 212 ∷ 63 ∷ 113 ∷ 166 ∷ 216 ∷ 68 ∷ 118 ∷ 171 ∷ 221 ∷ 72 ∷ 122
    ∷ 175 ∷ 225 ∷ 77 ∷ 127 ∷ 180 ∷ 230 ∷ 81 ∷ 131 ∷ 184 ∷ 234 ∷ 86 ∷ 136 ∷ 189 ∷ 239 ∷ 90 ∷ 140
    ∷ 193 ∷ 243 ∷ 60 ∷ 110 ∷ 163 ∷ 213 ∷ 64 ∷ 114 ∷ 167 ∷ 217 ∷ 69 ∷ 119 ∷ 172 ∷ 222 ∷ 73 ∷ 123
    ∷ 176 ∷ 226 ∷ 78 ∷ 128 ∷ 181 ∷ 231 ∷ 82 ∷ 132 ∷ 185 ∷ 235 ∷ 87 ∷ 137 ∷ 190 ∷ 240 ∷ 91 ∷ 141
    ∷ 194 ∷ 244 ∷ 61 ∷ 111 ∷ 164 ∷ 214 ∷ 65 ∷ 115 ∷ 168 ∷ 218 ∷ 70 ∷ 120 ∷ 173 ∷ 223 ∷ 74 ∷ 124
    ∷ 177 ∷ 227 ∷ 79 ∷ 129 ∷ 182 ∷ 232 ∷ 83 ∷ 133 ∷ 186 ∷ 236 ∷ 88 ∷ 138 ∷ 191 ∷ 241 ∷ 92 ∷ 142
    ∷ 195 ∷ 245 ∷ []

unfoldable pub sort_1425 : List ℕ
sort_1425 =
    0 ∷ 4 ∷ 6 ∷ 101 ∷ 159 ∷ 220 ∷ 278 ∷ 7 ∷ 5 ∷ 3 ∷ 47 ∷ 48 ∷ 49 ∷ 50 ∷ 51 ∷ 166 ∷ 167 ∷ 168 ∷ 169
    ∷ 170 ∷ 102 ∷ 160 ∷ 221 ∷ 279 ∷ 107 ∷ 165 ∷ 226 ∷ 284 ∷ 104 ∷ 162 ∷ 223 ∷ 281 ∷ 105 ∷ 163 ∷ 224
    ∷ 282 ∷ 108 ∷ 227 ∷ 106 ∷ 164 ∷ 225 ∷ 283 ∷ 103 ∷ 161 ∷ 222 ∷ 280 ∷ 52 ∷ 2 ∷ 1 ∷ 109 ∷ 228 ∷ 171
    ∷ 19 ∷ 21 ∷ 12 ∷ 17 ∷ 18 ∷ 20 ∷ 16 ∷ 25 ∷ 13 ∷ 10 ∷ 14 ∷ 24 ∷ 23 ∷ 22 ∷ 26 ∷ 8 ∷ 15 ∷ 53 ∷ 172
    ∷ 31 ∷ 110 ∷ 229 ∷ 9 ∷ 33 ∷ 11 ∷ 111 ∷ 230 ∷ 54 ∷ 173 ∷ 28 ∷ 27 ∷ 112 ∷ 231 ∷ 34 ∷ 35 ∷ 29 ∷ 46
    ∷ 32 ∷ 30 ∷ 55 ∷ 174 ∷ 37 ∷ 36 ∷ 39 ∷ 38 ∷ 40 ∷ 113 ∷ 232 ∷ 41 ∷ 42 ∷ 43 ∷ 44 ∷ 45 ∷ 56 ∷ 114
    ∷ 175 ∷ 233 ∷ 62 ∷ 120 ∷ 181 ∷ 239 ∷ 75 ∷ 133 ∷ 194 ∷ 252 ∷ 57 ∷ 115 ∷ 176 ∷ 234 ∷ 63 ∷ 121
    ∷ 182 ∷ 240 ∷ 70 ∷ 128 ∷ 189 ∷ 247 ∷ 76 ∷ 134 ∷ 195 ∷ 253 ∷ 83 ∷ 141 ∷ 202 ∷ 260 ∷ 92 ∷ 150
    ∷ 211 ∷ 269 ∷ 84 ∷ 142 ∷ 203 ∷ 261 ∷ 93 ∷ 151 ∷ 212 ∷ 270 ∷ 85 ∷ 143 ∷ 204 ∷ 262 ∷ 94 ∷ 152
    ∷ 213 ∷ 271 ∷ 86 ∷ 144 ∷ 205 ∷ 263 ∷ 95 ∷ 153 ∷ 214 ∷ 272 ∷ 64 ∷ 122 ∷ 183 ∷ 241 ∷ 77 ∷ 135
    ∷ 196 ∷ 254 ∷ 65 ∷ 123 ∷ 184 ∷ 242 ∷ 78 ∷ 136 ∷ 197 ∷ 255 ∷ 87 ∷ 145 ∷ 206 ∷ 264 ∷ 96 ∷ 154
    ∷ 215 ∷ 273 ∷ 58 ∷ 116 ∷ 177 ∷ 235 ∷ 66 ∷ 124 ∷ 185 ∷ 243 ∷ 71 ∷ 129 ∷ 190 ∷ 248 ∷ 79 ∷ 137
    ∷ 198 ∷ 256 ∷ 88 ∷ 146 ∷ 207 ∷ 265 ∷ 97 ∷ 155 ∷ 216 ∷ 274 ∷ 59 ∷ 117 ∷ 178 ∷ 236 ∷ 67 ∷ 125
    ∷ 186 ∷ 244 ∷ 72 ∷ 130 ∷ 191 ∷ 249 ∷ 80 ∷ 138 ∷ 199 ∷ 257 ∷ 89 ∷ 147 ∷ 208 ∷ 266 ∷ 98 ∷ 156
    ∷ 217 ∷ 275 ∷ 60 ∷ 118 ∷ 179 ∷ 237 ∷ 68 ∷ 126 ∷ 187 ∷ 245 ∷ 73 ∷ 131 ∷ 192 ∷ 250 ∷ 81 ∷ 139
    ∷ 200 ∷ 258 ∷ 90 ∷ 148 ∷ 209 ∷ 267 ∷ 99 ∷ 157 ∷ 218 ∷ 276 ∷ 61 ∷ 119 ∷ 180 ∷ 238 ∷ 69 ∷ 127
    ∷ 188 ∷ 246 ∷ 74 ∷ 132 ∷ 193 ∷ 251 ∷ 82 ∷ 140 ∷ 201 ∷ 259 ∷ 91 ∷ 149 ∷ 210 ∷ 268 ∷ 100 ∷ 158
    ∷ 219 ∷ 277 ∷ []

unfoldable pub sort_1585 : List ℕ
sort_1585 =
    0 ∷ 4 ∷ 6 ∷ 109 ∷ 175 ∷ 244 ∷ 310 ∷ 7 ∷ 5 ∷ 3 ∷ 47 ∷ 48 ∷ 49 ∷ 50 ∷ 51 ∷ 182 ∷ 183 ∷ 184 ∷ 185
    ∷ 186 ∷ 110 ∷ 176 ∷ 245 ∷ 311 ∷ 115 ∷ 181 ∷ 250 ∷ 316 ∷ 112 ∷ 178 ∷ 247 ∷ 313 ∷ 113 ∷ 179 ∷ 248
    ∷ 314 ∷ 116 ∷ 251 ∷ 114 ∷ 180 ∷ 249 ∷ 315 ∷ 111 ∷ 177 ∷ 246 ∷ 312 ∷ 52 ∷ 2 ∷ 1 ∷ 117 ∷ 252 ∷ 187
    ∷ 19 ∷ 21 ∷ 12 ∷ 17 ∷ 18 ∷ 20 ∷ 16 ∷ 25 ∷ 13 ∷ 10 ∷ 14 ∷ 24 ∷ 23 ∷ 22 ∷ 26 ∷ 8 ∷ 15 ∷ 53 ∷ 188
    ∷ 31 ∷ 118 ∷ 253 ∷ 9 ∷ 33 ∷ 11 ∷ 119 ∷ 254 ∷ 54 ∷ 189 ∷ 28 ∷ 27 ∷ 120 ∷ 255 ∷ 34 ∷ 35 ∷ 29 ∷ 46
    ∷ 32 ∷ 30 ∷ 55 ∷ 190 ∷ 37 ∷ 36 ∷ 39 ∷ 38 ∷ 40 ∷ 121 ∷ 256 ∷ 41 ∷ 42 ∷ 43 ∷ 44 ∷ 45 ∷ 56 ∷ 122
    ∷ 191 ∷ 257 ∷ 63 ∷ 129 ∷ 198 ∷ 264 ∷ 76 ∷ 142 ∷ 211 ∷ 277 ∷ 89 ∷ 155 ∷ 224 ∷ 290 ∷ 102 ∷ 168
    ∷ 237 ∷ 303 ∷ 57 ∷ 123 ∷ 192 ∷ 258 ∷ 70 ∷ 136 ∷ 205 ∷ 271 ∷ 83 ∷ 149 ∷ 218 ∷ 284 ∷ 96 ∷ 162
    ∷ 231 ∷ 297 ∷ 62 ∷ 128 ∷ 197 ∷ 263 ∷ 75 ∷ 141 ∷ 210 ∷ 276 ∷ 88 ∷ 154 ∷ 223 ∷ 289 ∷ 101 ∷ 167
    ∷ 236 ∷ 302 ∷ 58 ∷ 124 ∷ 193 ∷ 259 ∷ 71 ∷ 137 ∷ 206 ∷ 272 ∷ 84 ∷ 150 ∷ 219 ∷ 285 ∷ 97 ∷ 163
    ∷ 232 ∷ 298 ∷ 59 ∷ 125 ∷ 194 ∷ 260 ∷ 64 ∷ 130 ∷ 199 ∷ 265 ∷ 67 ∷ 133 ∷ 202 ∷ 268 ∷ 72 ∷ 138
    ∷ 207 ∷ 273 ∷ 77 ∷ 143 ∷ 212 ∷ 278 ∷ 80 ∷ 146 ∷ 215 ∷ 281 ∷ 85 ∷ 151 ∷ 220 ∷ 286 ∷ 90 ∷ 156
    ∷ 225 ∷ 291 ∷ 93 ∷ 159 ∷ 228 ∷ 294 ∷ 98 ∷ 164 ∷ 233 ∷ 299 ∷ 103 ∷ 169 ∷ 238 ∷ 304 ∷ 106 ∷ 172
    ∷ 241 ∷ 307 ∷ 60 ∷ 126 ∷ 195 ∷ 261 ∷ 65 ∷ 131 ∷ 200 ∷ 266 ∷ 68 ∷ 134 ∷ 203 ∷ 269 ∷ 73 ∷ 139
    ∷ 208 ∷ 274 ∷ 78 ∷ 144 ∷ 213 ∷ 279 ∷ 81 ∷ 147 ∷ 216 ∷ 282 ∷ 86 ∷ 152 ∷ 221 ∷ 287 ∷ 91 ∷ 157
    ∷ 226 ∷ 292 ∷ 94 ∷ 160 ∷ 229 ∷ 295 ∷ 99 ∷ 165 ∷ 234 ∷ 300 ∷ 104 ∷ 170 ∷ 239 ∷ 305 ∷ 107 ∷ 173
    ∷ 242 ∷ 308 ∷ 61 ∷ 127 ∷ 196 ∷ 262 ∷ 66 ∷ 132 ∷ 201 ∷ 267 ∷ 69 ∷ 135 ∷ 204 ∷ 270 ∷ 74 ∷ 140
    ∷ 209 ∷ 275 ∷ 79 ∷ 145 ∷ 214 ∷ 280 ∷ 82 ∷ 148 ∷ 217 ∷ 283 ∷ 87 ∷ 153 ∷ 222 ∷ 288 ∷ 92 ∷ 158
    ∷ 227 ∷ 293 ∷ 95 ∷ 161 ∷ 230 ∷ 296 ∷ 100 ∷ 166 ∷ 235 ∷ 301 ∷ 105 ∷ 171 ∷ 240 ∷ 306 ∷ 108 ∷ 174
    ∷ 243 ∷ 309 ∷ []

unfoldable pub sort_sid : List ℕ
sort_sid =
    0 ∷ 1 ∷ 2 ∷ 3 ∷ 4 ∷ 5 ∷ 6 ∷ 7 ∷ 8 ∷ 9 ∷ 10 ∷ 11 ∷ 12 ∷ 13 ∷ 14 ∷ 15 ∷ 16 ∷ 17 ∷ 18 ∷ 19 ∷ 20
    ∷ 21 ∷ 22 ∷ 23 ∷ 24 ∷ 25 ∷ 26 ∷ 27 ∷ 28 ∷ 29 ∷ 30 ∷ 31 ∷ 32 ∷ 33 ∷ 34 ∷ []
